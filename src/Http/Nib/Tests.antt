-- ===== src/Http/Nib/Tests.antt =====
-- A request over a network that takes everything, and one that it refuses.
use encarno.Base.{
  false, List, ◌<◌, ◌%◌, ◌^◌, inl, ℕ, ◌≡◌, ◌≢◌, refl, ◌↔◌, true, false, none, some, [], ◌∷◌, length,
  ok, arith,
}
use encarno.Base.Bytes.{Bytes, codes, cut, equal}
use encarno.Base.Decimal.{itoa}
use encarno.Base.Int.{pos}
use encarno.Base.Map.{insert, lookup}
use encarno.Core.Input.{PayloadItem}
use encarno.Core.Output.{OutputItem, end_with_error, extract_values, pick_value}
use encarno.Core.Output.Checks.{AllHold}
use encarno.Core.Output.Texts.{IsOpen}
use encarno.Core.StrIndex.{StrIndex, placeholder as fresh_index}
use encarno.Http.Nib.Journeys.{AllLabelled, AllHttp, labelled, run-unpack_all}
use encarno.Base.Map.{Map}
use encarno.Core.Input.{
  variable_re, must_compile, substitute, replace_values, replace_names, resolve_strings,
  resolve_text,
}
use encarno.Core.Output.Pipe.{Output, binary_out, new_writer, push_items, close_outs}
use encarno.Core.Output.Pipe.Rows.{unpack_all, AreRows}
use encarno.Core.Worker.{Turn, run}
use encarno.Core.Worker.Iterations.{IsSane, Passes}
use encarno.Core.Worker.Runs.{Served, closes, serves, results_of}
use encarno.Core.Regexp.{find_all_submatch}
use encarno.Core.Regexp.Literal.{literal, find_literal, replace_literal}
use encarno.Core.Status.{new_status}
use encarno.Core.Worker.{Worker, do_busy}
use encarno.Http.Headers.{get_host_and_conn_header_values}
use encarno.Http.Nib.{
  Network, answered, with_content_length, record_limit, punch, send_request, end_sending, end_punch,
  read_response, receive, end_reading, http_nib, waiting, returned, comes_back, leave_conn,
}
use encarno.Http.Pool.{ConnPool, return_conn}
use encarno.Http.Nib.Verdicts.{Answers, recorded, do_busy-http_nib}

abbrev length_text : Bytes
length_text = codes "${:content-length:}"

abbrev item : PayloadItem Bytes
item = record {
  label_idx = 0;
  label = codes "login";
  address_idx = 0;
  address = codes "http://localhost";
  payload_len = pos 0;
  payload = codes "POST / HTTP/1.1\nHost: a\nContent-Length: ${:content-length:}\n\nbody";
  replaces_idx = [];
  replaces = length_text ∷ [];
  regex_out_idx = [];
  regex_out = (codes "t", record { re = codes "tok"; group_no = 0; match_no = pos 0 }) ∷ [];
  asserts_idx = [];
  asserts = record { re = codes "ok"; invert = true } ∷ [];
  str_index = none;
}

abbrev network : Network
network = record {
  get = λ address hint. none;
  set_deadline = none;
  write = λ payload. (length payload, none);
  read_response = λ payload limit. answered 200 false none (record {
    read_recorded = codes "a token";
    read_len = 7;
    first_read = some 1700000000000000500;
    err = none;
    canceled = false;
  });
  times = record {
    start = 1700000000000000000;
    before = 1700000000000000100;
    connected = 1700000000000000200;
    sent = 1700000000000000300;
    begin = 1700000000000000400;
    read = 1700000000000000600;
    finish = 1700000000000000700;
  };
  pool = record { idle = (codes "http://localhost", []) ∷ []; max_connections = 1 };
  conn = 0;
}

-- A later request finds that nobody listens any more.
abbrev refusing : Network
refusing = record network { get = λ address hint. some (codes "connection refused") }

abbrev worker : Worker
worker = record {
  index = 0;
  start_time = 1700000000000000000;
  values = [];
  finished = false;
  iteration_count = 0;
  status = new_status;
  stopped = false;
}

first : ℕ → ℕ
first n = 0

sent_payload :
    (with_content_length literal length_text network item).payload
    ≡ codes "POST / HTTP/1.1\nHost: a\nContent-Length: 4\n\nbody"
unfolding with_content_length get_host_and_conn_header_values replace_literal itoa cut
sent_payload = refl

returned-waiting : {pool : ConnPool} → returned pool ≢ waiting
returned-waiting h = cc h

item-comes_back : (punch literal length_text network item).2 ≢ waiting
unfolding punch with_content_length send_request end_sending end_punch read_response receive
    end_reading leave_conn return_conn lookup equal get_host_and_conn_header_values cut
item-comes_back h = returned-waiting h

item-extracts :
    let (sent, out, fate) = punch literal length_text network item in
    extract_values literal first out.resp_bytes sent.regex_out worker.values
    ≡ ok ((codes "t", codes "tok") ∷ [])
unfolding punch with_content_length send_request end_sending end_punch read_response receive
    end_reading extract_values pick_value find_all_submatch find_literal insert
item-extracts = refl

do_busy-http_nib_example :
    let (host_hint, conn_close, body_len) = get_host_and_conn_header_values item.payload in
    let sent = with_content_length literal length_text network item in
    let response =
      network.read_response sent.payload (record_limit literal length_text network sent) in
    (res : OutputItem) × (do_busy literal (http_nib literal length_text network) first worker item
      ≡ ok (record worker { values = (codes "t", codes "tok") ∷ [] }, res))
    × ((res.error ≡ none)
        ↔ (Answers none none none response × AllHold literal (recorded response) sent.asserts))
do_busy-http_nib_example =
    do_busy-http_nib literal length_text network first worker item ((codes "t", codes "tok") ∷ [])
      (omega arith) item-comes_back item-extracts

-- Bit patterns in place of those of floats.
abbrev bits : ℕ → ℕ
bits d = d % 2 ^ 64

bits_small : (d : ℕ) → bits d < 2 ^ 64
bits_small d = omega arith

abbrev index : StrIndex
index = fresh_index (codes "out.ostr") false none

index-IsOpen : IsOpen index
unfolding lookup equal
index-IsOpen = record {
  sound = record { sound = λ l i h. ground arith; bounded = omega arith };
  writable = refl;
  zero_text = refl;
}

abbrev sent_item : PayloadItem Bytes
sent_item = (punch literal length_text network item).0

abbrev result : OutputItem
result = (punch literal length_text network item).1

replaced : (cache : Map Bytes) × (replace_values literal [] [] item ≡ ok (item, cache))
unfolding replace_values replace_names variable_re lookup must_compile substitute insert
    resolve_strings replace_literal equal
replaced = (_, refl)

item-Passes :
    Passes literal
      (http_nib literal length_text network)
      first
      []
      []
      item
      replaced.0
      sent_item
      result
      ((codes "t", codes "tok") ∷ [])
unfolding http_nib resolve_strings resolve_text equal comes_back punch end_punch send_request
    end_sending read_response receive end_reading leave_conn get_host_and_conn_header_values cut
    return_conn lookup with_content_length
item-Passes = record {
  replaced = item;
  resolved = item;
  replaces = replaced.1;
  resolves = refl;
  punches = refl;
  extracts = item-extracts;
}

abbrev plain : PayloadItem Bytes
plain = record item { label = codes "logout"; replaces = []; regex_out = []; asserts = [] }

abbrev sent_plain : PayloadItem Bytes
sent_plain = (punch literal length_text refusing plain).0

abbrev refusal : OutputItem
refusal = (punch literal length_text refusing plain).1

plain-Passes :
    Passes literal
      (http_nib literal length_text refusing)
      first
      ((codes "t", codes "tok") ∷ [])
      replaced.0
      plain
      replaced.0
      sent_plain
      refusal
      ((codes "t", codes "tok") ∷ [])
unfolding http_nib resolve_strings resolve_text equal replace_values replace_names extract_values
    punch with_content_length send_request end_sending end_punch comes_back end_with_error
plain-Passes = record {
  replaced = plain;
  resolved = plain;
  replaces = refl;
  resolves = refl;
  punches = refl;
  extracts = refl;
}

abbrev turns : List (Turn literal)
turns =
    record {
      nib = http_nib literal length_text network;
      offset = 0;
      item = some item;
      now = 1699999999000000000;
      stops = false;
    }
    ∷ record {
      nib = http_nib literal length_text refusing;
      offset = 1000;
      item = some plain;
      now = 1700000000000000800;
      stops = false;
    }
    ∷ record {
      nib = http_nib literal length_text network;
      offset = 2000;
      item = none;
      now = 1700000000000000900;
      stops = false;
    }
    ∷ []

abbrev served : List (PayloadItem Bytes × OutputItem)
served = (sent_item, result) ∷ (sent_plain, refusal) ∷ []

turns-AllHttp : AllHttp literal length_text first turns
turns-AllHttp = ((network, refl), ((refusing, refl), ((network, refl), tt)))

turns-Served : Served literal first [] [] turns served ((codes "t", codes "tok") ∷ []) replaced.0 1
turns-Served =
    serves (http_nib literal length_text network) 0 1699999999000000000 item sent_item result
      item-Passes
      (serves (http_nib literal length_text refusing) 1000 1700000000000000800 plain sent_plain
        refusal plain-Passes
        (closes (http_nib literal length_text network) 2000 1700000000000000900 false []))

new_status-IsSane : IsSane new_status
new_status-IsSane = record {
  sleeping = omega arith;
  busy = omega arith;
  working = omega arith;
  waiting = omega arith;
}

abbrev labels : List Bytes
labels = codes "login" ∷ codes "logout" ∷ []

served-AllLabelled : AllLabelled literal length_text first index served labels
unfolding punch with_content_length
served-AllLabelled = ((omega arith, inl (refl, refl)), ((omega arith, inl (refl, refl)), tt))

marshal : OutputItem → Bytes
marshal i = i.label

run-unpack_all_example :
    (w' : Worker) × (m : Output) × (t : StrIndex) × (file : Bytes) × (rows : List (List ℕ)) × (run
        literal first worker [] turns
      ≡ ok (w', replaced.0, results_of literal first worker served))
    × (push_items marshal bits
          (record {
            outs = binary_out (record { writer = new_writer; last_ts = 0 }) ∷ [];
            str_index = some index;
          })
          (results_of literal first worker served)
        ≡ ok m)
    × (m.str_index ≡ some t)
    × (close_outs m ≡ file ∷ [])
    × (unpack_all 2 file ≡ some rows)
    × AreRows bits t (labelled literal length_text first worker served labels) rows
run-unpack_all_example =
    run-unpack_all literal length_text first marshal bits worker [] turns served
      ((codes "t", codes "tok") ∷ []) replaced.0 1 index labels bits_small new_status-IsSane refl
      (omega arith) turns-Served turns-AllHttp index-IsOpen (omega arith) served-AllLabelled
