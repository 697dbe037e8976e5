-- ===== src/Core/Worker/Tests.antt =====
-- One worker with a nib that always gives the same response.
use encarno.Base.{ℕ, ◌≡◌, refl, false, none, some, [], ◌∷◌, arith, ok}
use encarno.Base.Bytes.{Bytes, codes, equal}
use encarno.Base.Int.{pos}
use encarno.Base.Map.{Map, insert}
use encarno.Core.Input.{PayloadItem, resolve_text, resolve_strings, replace_names, replace_values}
use encarno.Core.Output.{OutputItem, extract_values, pick_value}
use encarno.Core.Regexp.{find_all_submatch}
use encarno.Core.Regexp.Literal.{literal, find_literal}
use encarno.Core.Status.{new_status, up, inc_waiting, take_counts}
use encarno.Core.Worker.{Worker, Nib, iteration, run}
use encarno.Core.Worker.Runs.{Served, serves, closes, Ran, run-Served}
use encarno.Core.Worker.Sharing.Single.{Moves, iteration-Moves}
use encarno.Core.Worker.Iterations.{IsSane, Balanced, Passes, result_of, iteration_lem}
use encarno.Core.Worker.Sharing.{
  between, awaiting, gone, starts_waiting, input_closed, System, moves, spawns, reports, Reach,
  stay, then_step, at_first, Inv,
}
use encarno.Core.Worker.Sharing.Counters.{Reach-Inv_exact}

abbrev item : PayloadItem Bytes
item = record {
  label_idx = 0;
  label = codes "login";
  address_idx = 0;
  address = codes "localhost";
  payload_len = pos 3;
  payload = codes "GET";
  replaces_idx = [];
  replaces = [];
  regex_out_idx = [];
  regex_out = (codes "t", record { re = codes "tok"; group_no = 0; match_no = pos 0 }) ∷ [];
  asserts_idx = [];
  asserts = record { re = codes "ok"; invert = false } ∷ [];
  str_index = none;
}

abbrev response : OutputItem
response = record {
  start_time = 1700000000000000000;
  start_ts = 0;
  status = 200;
  error = none;
  error_str = [];
  error_str_idx = 0;
  concurrency = 0;
  elapsed = 1500;
  connect_time = 100;
  sent_time = 200;
  first_byte_time = 300;
  read_time = 900;
  worker = 0;
  label = [];
  label_idx = 0;
  sent_bytes_count = 3;
  resp_bytes_count = 3;
  req_bytes = [];
  resp_bytes = codes "tok";
}

abbrev nib : Nib Bytes
nib = record { punch = λ i. ok (i, response) }

first : ℕ → ℕ
first n = 0

abbrev worker : Worker
worker = record {
  index = 7;
  start_time = 1699999999000000000;
  values = [];
  finished = false;
  iteration_count = 0;
  status = new_status;
  stopped = false;
}

new_status-IsSane : IsSane new_status
new_status-IsSane = record {
  sleeping = omega arith;
  busy = omega arith;
  working = omega arith;
  waiting = omega arith;
}

abbrev found : Map Bytes
found = (codes "t", codes "tok") ∷ []

item-Passes : Passes literal nib first [] [] item [] item response found
unfolding replace_values replace_names resolve_strings resolve_text equal extract_values pick_value
    find_all_submatch find_literal insert
item-Passes = record {
  replaced = item;
  resolved = item;
  replaces = refl;
  resolves = refl;
  punches = refl;
  extracts = refl;
}

-- Two workers, one of which has met the end of the input.
abbrev one_gone : System
one_gone = record {
  status = record new_status { waiting = 1 };
  phases = gone ∷ between ∷ [];
  requests = 0;
  reported = 0;
}

one_gone-Reach : Reach at_first one_gone
unfolding inc_waiting take_counts
one_gone-Reach =
    then_step
      (then_step
        (then_step (then_step (then_step stay spawns) spawns) (
          moves [] (between ∷ []) between awaiting (record new_status { waiting = 1 }) refl
            starts_waiting))
        (moves [] (between ∷ []) awaiting gone (record new_status { waiting = 1 }) refl
          input_closed))
      reports

Reach-Inv_exact_example : Inv one_gone
Reach-Inv_exact_example = Reach-Inv_exact one_gone-Reach (omega arith) (omega arith)

-- The worker after one item.
one_iteration :
    (w' : Worker) × (iteration literal nib first worker [] 1000
        (some item)
        1699999998000000000
        false
      ≡ ok (false, w', [], some (result_of literal worker item response)))
    × Balanced worker.status w'.status
    × (w'.status.cnt ≡ up worker.status.cnt)
    × (w'.iteration_count ≡ up worker.iteration_count)
    × (w'.values ≡ found)
one_iteration =
    iteration_lem literal nib first worker [] item 1000 1699999998000000000 [] item response found
      new_status-IsSane refl item-Passes

iteration-Moves_example : Moves worker.status between between one_iteration.0.status
iteration-Moves_example =
    iteration-Moves literal nib first worker one_iteration.0 [] [] 1000 (some item)
      1699999998000000000 false false (some (result_of literal worker item response))
      one_iteration.1

-- One item, and then the end of the input.
one_item-Served :
    Served literal first [] []
      (record {
        nib = nib;
        offset = 1000;
        item = some item;
        now = 1699999998000000000;
        stops = false;
      }
        ∷ record { nib = nib; offset = 2000; item = none; now = 1699999999000000000; stops = false }
        ∷ [])
      ((item, response) ∷ [])
      found
      []
      1
one_item-Served =
    serves nib 1000 1699999998000000000 item item response item-Passes
      (closes nib 2000 1699999999000000000 false [])

run-Served_example :
    (w' : Worker) × (run literal first worker [] (
        record {
          nib = nib;
          offset = 1000;
          item = some item;
          now = 1699999998000000000;
          stops = false;
        }
        ∷ record { nib = nib; offset = 2000; item = none; now = 1699999999000000000; stops = false }
        ∷ [])
      ≡ ok (w', [], result_of literal worker item response ∷ []))
    × Ran literal first worker found 1 1 w'
run-Served_example =
    run-Served literal first worker []
      (record {
        nib = nib;
        offset = 1000;
        item = some item;
        now = 1699999998000000000;
        stops = false;
      }
        ∷ record { nib = nib; offset = 2000; item = none; now = 1699999999000000000; stops = false }
        ∷ [])
      ((item, response) ∷ []) found [] 1 new_status-IsSane refl (omega arith) one_item-Served
