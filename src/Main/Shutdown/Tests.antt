-- ===== src/Main/Shutdown/Tests.antt =====
-- A process with one result in its only file.
use encarno.Base.{ℕ, ◌≡◌, refl, false, none, some, [], ◌∷◌, ok}
use encarno.Base.Bytes.{Bytes, codes, equal}
use encarno.Core.Output.{OutputItem, ldjson_push, string_friendly, write}
use encarno.Core.Output.Pipe.{Output, ldjson_out, push_item, push_outs, push_out, close_outs}
use encarno.Main.Shutdown.{
  Process, open_mode, makes_controller, pushes, writes, closed, running, Reach, stay, then_step,
  begin,
}
use encarno.Main.Shutdown.Written.{Written}
use encarno.Main.Shutdown.Files.{Reach-unclosed}
use encarno.Http.Nib.{new_item}

abbrev result : OutputItem
result = new_item 1700000000000000000

marshal : OutputItem → Bytes
marshal item = codes "{}"

seconds : ℕ → ℕ
seconds d = 0

abbrev output : Output
output = record { outs = ldjson_out (record { file = []; buffer = [] }) ∷ []; str_index = none }

abbrev written_output : Output
written_output = record {
  outs = ldjson_out (record { file = []; buffer = codes "{}\r\n" }) ∷ [];
  str_index = none;
}

result-push_item : push_item marshal seconds output result ≡ ok written_output
unfolding push_item push_outs push_out ldjson_push string_friendly write equal marshal
result-push_item = refl

abbrev at_work : Process
at_work = record (begin open_mode output) {
  progress = running;
  output = written_output;
  pushed = result ∷ [];
}

at_work-Reach : Reach marshal seconds (begin open_mode output) at_work
at_work-Reach =
    then_step
      (then_step (then_step stay (makes_controller refl refl)) (pushes result refl refl refl refl))
      (writes result written_output refl refl refl result-push_item)

abbrev at_end : Process
at_end = record at_work {
  signals = record { interrupted = false; interrupt = 0; done = 1 };
  progress = closed;
  files = some (close_outs written_output);
  exit = some 0;
}

Reach-unclosed_example :
    (t : Process) × Reach marshal seconds at_work t
    × (t.exit ≡ some 2)
    × (t.files ≡ none)
    × (t.output ≡ written_output)
    × (t.pushed ≡ result ∷ [])
Reach-unclosed_example =
    Reach-unclosed marshal seconds open_mode output at_work at_work-Reach refl refl refl
