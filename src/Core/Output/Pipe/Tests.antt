-- ===== src/Core/Output/Pipe/Tests.antt =====
-- An output with all its writers, and two results: one gets a number for its label, the other one
-- has a number and gets its label.
use encarno.Base.{ℕ, ◌≡◌, ◌<◌, inl, arith, refl, ◌%◌, ◌^◌, none, some, false, List, [], ◌∷◌, ok}
use encarno.Base.Bytes.{Bytes, codes, equal}
use encarno.Base.Map.{lookup, insert}
use encarno.Core.Output.{OutputItem, string_friendly, ldjson_push, binary_push, reqresp_push, write}
use encarno.Core.Output.Pipe.{
  binary_out, new_writer, close_outs, OutputConf, Output, new_output, push_items, push_item,
  push_outs, push_out,
}
use encarno.Core.Output.Pipe.Choices.{binary_conf, only_binary, push_items-new_output}
use encarno.Core.Output.Pipe.Rows.{unpack_all, AllStand, AreRows, push_items-unpack_all}
use encarno.Core.Output.Binary.{HasTypes}
use encarno.Core.Output.Texts.{IsOpen}
use encarno.Core.StrIndex.{
  StrIndex, placeholder as fresh_index, new_string_index, idx, idx_locked, append_file, get,
}

abbrev conf : OutputConf
conf = record {
  ldjson_file = codes "out.ldjson";
  reqresp_file = codes "out.trace";
  reqresp_file_level = 0;
  binary_file = codes "out.bin";
  strings_file = codes "out.ostr";
}

abbrev labelled : Bytes → ℕ → OutputItem
labelled label label_idx = record {
  start_time = 1700000000;
  start_ts = 1700000000;
  status = 200;
  error = none;
  error_str = [];
  error_str_idx = 0;
  concurrency = 3;
  elapsed = 1500;
  connect_time = 100;
  sent_time = 200;
  first_byte_time = 300;
  read_time = 900;
  worker = 7;
  label = label;
  label_idx = label_idx;
  sent_bytes_count = 70000;
  resp_bytes_count = 5;
  req_bytes = codes "GET /";
  resp_bytes = codes "ok";
}

abbrev items : List OutputItem
items = labelled (codes "login") 0 ∷ labelled [] 1 ∷ []

abbrev bits : ℕ → ℕ
bits d = d % 2 ^ 64

abbrev marshal : OutputItem → Bytes
marshal i = i.label

opened : (m : Output) × (new_output conf none ≡ ok m)
unfolding new_output new_string_index equal
opened = (_, refl)

pushed : (n : Output) × (push_items marshal bits opened.0 items ≡ ok n)
unfolding opened push_items push_item push_outs push_out ldjson_push binary_push reqresp_push
    string_friendly write idx idx_locked append_file get lookup insert equal
pushed = (_, refl)

push_items-new_output_example :
    (k : Output) × (new_output (binary_conf conf) none ≡ ok k)
    × (push_items marshal bits k items ≡ ok (only_binary pushed.0))
push_items-new_output_example =
    push_items-new_output marshal bits conf none items opened.0 pushed.0 opened.1 pushed.1

bits_small : (d : ℕ) → bits d < 2 ^ 64
bits_small d = omega arith

abbrev index : StrIndex
index = fresh_index (codes "out.ostr") false none

index-IsOpen : IsOpen index
unfolding lookup equal
index-IsOpen = record {
  sound = record { sound = λ l i h. ground arith; bounded = omega arith };
  writable = refl;
  zero_text = refl;
}

labelled-HasTypes :
    (label : Bytes) (label_idx : ℕ) → label_idx < 2 ^ 16 → HasTypes (labelled label label_idx)
labelled-HasTypes label label_idx small = record {
  start_ts = omega arith;
  status = omega arith;
  error_str_idx = omega arith;
  concurrency = omega arith;
  worker = omega arith;
  label_idx = small;
  sent_bytes_count = omega arith;
  resp_bytes_count = omega arith;
}

-- One result with a label, and one with the number of the empty text.
abbrev labels : List (OutputItem × Bytes)
labels = (labelled (codes "login") 0, codes "login") ∷ (labelled [] 0, []) ∷ []

labels-AllStand : AllStand index labels
labels-AllStand = (
  (labelled-HasTypes (codes "login") 0 (omega arith), refl, inl (refl, refl)),
  ((labelled-HasTypes [] 0 (omega arith), refl, inl (refl, refl)), tt),
)

push_items-unpack_all_example :
    (m : Output) × (t : StrIndex) × (file : Bytes) × (rows : List (List ℕ)) × (push_items marshal
        bits
        (record {
          outs = binary_out (record { writer = new_writer; last_ts = 0 }) ∷ [];
          str_index = some index;
        })
        (labelled (codes "login") 0 ∷ labelled [] 0 ∷ [])
      ≡ ok m)
    × (m.str_index ≡ some t)
    × (close_outs m ≡ file ∷ [])
    × (unpack_all 2 file ≡ some rows)
    × AreRows bits t labels rows
push_items-unpack_all_example =
    push_items-unpack_all bits marshal bits_small index labels index-IsOpen (omega arith)
      labels-AllStand
