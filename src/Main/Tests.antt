-- ===== src/Main/Tests.antt =====
-- A start with strings files for the input and the output.
use encarno.Base.{
  inl, inr, arith, ℕ, ◌≡◌, refl, ◌*◌, ◌%◌, ◌^◌, false, none, some, List, [], ◌∷◌, if◌then◌else◌, ok,
}
use encarno.Base.Bytes.{Bytes, codes, equal}
use encarno.Base.Double.{unit, fixed}
use encarno.Base.Int.{pos}
use encarno.Base.Map.{lookup, insert}
use encarno.Base.Scanner.{scan}
use encarno.Core.Config.{Configuration}
use encarno.Core.Output.{OutputItem, binary_push, write}
use encarno.Core.Output.Pipe.{Output, new_output, push_items, push_item, push_outs, push_out}
use encarno.Core.StrIndex.{
  StrIndex, new_string_index, load, load_existing, add_lines, add_line, idx, idx_locked,
  append_file, get,
}
use encarno.Main.{Files, new_input, Started, start}
use encarno.Main.Starts.{CanStart}
use encarno.Main.Labels.{start-get}

abbrev files : Files
files name =
    if equal name (codes "in.str")
    then some (codes "login\nlogout\n")
    else if equal name (codes "in.payload")
    then some []
    else none

abbrev config : Configuration fixed
config = record {
  input = record {
    payload_file = codes "in.payload";
    strings_file = codes "in.str";
    enable_regexes = false;
    iteration_limit = pos 0;
  };
  output = record {
    ldjson_file = [];
    reqresp_file = [];
    reqresp_file_level = 0;
    binary_file = codes "out.bin";
    strings_file = codes "out.str";
  };
  workers = record {
    mode = codes "open";
    workload_schedule =
        record { level_start = 100 * unit; level_end = 100 * unit; duration = 1_000_000_000 } ∷ [];
    starting_workers = pos 1;
    max_workers = pos 2;
    values = [];
  };
  protocol = record {
    driver = codes "http";
    max_connections = 1;
    timeout = 1_000_000_000;
    tls_conf = record {
      insecure_skip_verify = false;
      tls_cipher_suites = [];
      min_version = 0;
      max_version = 0;
    };
  };
}

abbrev items : List OutputItem
items =
    record {
      start_time = 1700000000;
      start_ts = 1700000000;
      status = 200;
      error = none;
      error_str = [];
      error_str_idx = 0;
      concurrency = 3;
      elapsed = 1500;
      connect_time = 100;
      sent_time = 200;
      first_byte_time = 300;
      read_time = 900;
      worker = 7;
      label = codes "search";
      label_idx = 0;
      sent_bytes_count = 70000;
      resp_bytes_count = 5;
      req_bytes = codes "GET /";
      resp_bytes = codes "ok";
    }
    ∷ []

abbrev bits : ℕ → ℕ
bits d = d % 2 ^ 64

abbrev marshal : OutputItem → Bytes
marshal i = i.label

opened : (m : Output) × (new_output config.output (files (codes "in.str")) ≡ ok m)
unfolding new_output new_string_index load load_existing scan equal add_lines add_line
opened = (_, refl)

pushed : (n : Output) × (push_items marshal bits opened.0 items ≡ ok n)
unfolding opened push_items push_item push_outs push_out binary_push write idx idx_locked
    append_file lookup insert equal
pushed = (_, refl)

config-CanStart : CanStart fixed config files opened.0
unfolding scan equal
config-CanStart = record {
  content = codes "login\nlogout\n";
  texts = codes "login" ∷ codes "logout" ∷ [];
  payload = [];
  input_named = λ h. cc;
  output_named = λ h. cc;
  read = refl;
  scanned = refl;
  input_read = refl;
  driver = inr refl;
  mode = inl refl;
  output_opened = opened.1;
}

start-get_example :
    (st : Started fixed) × (s : StrIndex) × (t : StrIndex) × (l : Bytes) × (start fixed config files
        1000
      ≡ ok st)
    × (st.output ≡ opened.0)
    × (new_input config.input st.files ≡ ok (some s))
    × (pushed.0.str_index ≡ some t)
    × (get s 2 ≡ ok l)
    × (get t 2 ≡ ok l)
unfolding config-CanStart
start-get_example =
    start-get fixed marshal bits config files 1000 items opened.0 pushed.0 2 config-CanStart
      pushed.1 (omega arith)
