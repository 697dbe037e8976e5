-- ===== src/Core/Output/Pipe.antt =====
-- pkg/core/output.go: the output, which puts each result into the writers that are configured.
-- The files that it opens are different ones. Closing a writer gives what its file then holds.
pub mod Dressed
pub mod Choices
pub mod Growth
pub mod Rows
mod Tests
use encarno.Base.{
  ℕ, false, Option, none, some, List, [], ◌∷◌, ◌++◌, map, if◌then◌else◌, Result, ok, ◌>>=◌,
}
use encarno.Base.Bytes.{Bytes, equal}
use encarno.Core.Output.{
  OutputItem, BufWriter, BinaryOut, ldjson_push, reqresp_push, binary_push, close,
}
use encarno.Core.StrIndex.{StrIndex, new_string_index}

pub record OutputConf : Type 0 where
  pub ldjson_file : Bytes
  pub reqresp_file : Bytes
  pub reqresp_file_level : ℕ
  pub binary_file : Bytes
  pub strings_file : Bytes

pub data SingleOut : Type 0 where
  ldjson_out : BufWriter → SingleOut
  binary_out : BinaryOut → SingleOut
  reqresp_out : ℕ → BufWriter → SingleOut

pub record Output : Type 0 where
  pub outs : List SingleOut
  pub str_index : Option StrIndex

-- A file that has just been opened, and truncated.
abbrev pub new_writer : BufWriter
new_writer = record { file = []; buffer = [] }

abbrev pub when_named : Bytes → SingleOut → List SingleOut
when_named name out = if equal name [] then [] else out ∷ []

-- `NewOutput`. `disk` is what the strings file holds.
unfoldable pub new_output : OutputConf → Option Bytes → Result Output
new_output conf disk =
    let outs =
      when_named conf.ldjson_file (ldjson_out new_writer)
      ++ (when_named conf.binary_file (binary_out (record { writer = new_writer; last_ts = 0 }))
          ++ when_named conf.reqresp_file (reqresp_out conf.reqresp_file_level new_writer)) in
    if equal conf.strings_file []
    then ok (record { outs = outs; str_index = none })
    else new_string_index conf.strings_file false disk >>= λ index.
        ok (record { outs = outs; str_index = some index })

unfoldable pub close_out : SingleOut → Bytes
close_out (ldjson_out w) = close w
close_out (binary_out o) = close o.writer
close_out (reqresp_out level w) = close w

-- `Output.Close`: what the files hold.
unfoldable pub close_outs : Output → List Bytes
unfolding close_out
close_outs m = map close_out m.outs

-- `marshal` is `json.Marshal` of an item, and `seconds` the float64 of a duration.
module _ (marshal : OutputItem → Bytes) (seconds : ℕ → ℕ) where
  -- `Push` of one of the writers: it can change the item, and the index of strings.
  unfoldable pub push_out :
      Option StrIndex → SingleOut → OutputItem → Result (Option StrIndex × SingleOut × OutputItem)
  push_out index (ldjson_out w) item =
      ldjson_push marshal index w item >>= λ r. ok (index, ldjson_out r.0, r.1)
  push_out index (binary_out o) item =
      binary_push seconds index o item >>= λ r. ok (r.0, binary_out r.1, r.2)
  push_out index (reqresp_out level w) item =
      reqresp_push marshal index level w item >>= λ r. ok (index, reqresp_out level r.0, r.1)

  -- The inner loop of `background`.
  unfoldable pub push_outs :
      Option StrIndex
      → List SingleOut
      → OutputItem
      → Result (Option StrIndex × List SingleOut × OutputItem)
  push_outs index [] item = ok (index, [], item)
  push_outs index (out ∷ outs) item =
      push_out index out item >>= λ r. push_outs r.0 outs r.2 >>= λ rs. ok (rs.0, r.1 ∷ rs.1, rs.2)

  -- `Push`, and what `background` does with the item.
  unfoldable pub push_item : Output → OutputItem → Result Output
  push_item m item =
      push_outs m.str_index m.outs item >>= λ rs. ok (record { outs = rs.1; str_index = rs.0 })

  unfoldable pub push_items : Output → List OutputItem → Result Output
  push_items m [] = ok m
  push_items m (item ∷ items) = push_item m item >>= λ m'. push_items m' items
