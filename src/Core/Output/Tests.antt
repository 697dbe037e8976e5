-- ===== src/Core/Output/Tests.antt =====
-- Results, their checks and their records at concrete inputs.
use encarno.Base.{
  ℕ, ◌≡◌, refl, ap, ◌↔◌, true, false, none, some, List, [], ◌∷◌, ◌++◌, arith, length, leb,
  if◌then◌else◌, ok, panic, index_out_of_range,
}
use encarno.Base.Bytes.{Bytes, codes, equal}
use encarno.Base.Int.{pos, negsuc}
use encarno.Base.Map.{Map, lookup}
use encarno.Core.Input.{AssertItem, ExtractRegex}
use encarno.Core.Output.{
  OutputItem, BufWriter, string_friendly, assert, extract_values, placeholder, reqresp_push,
}
use encarno.Core.Output.Checks.{
  AllHold, assert_lem, no_match, nth_match, FindAll, extract_values_lem, extract_values_few_matches,
}
use encarno.Core.Output.Writer.{stream, concat, trace, reqresp_push_lem}
use encarno.Core.Regexp.Literal.{literal, find_literal}

abbrev item : OutputItem
item = record {
  start_time = 1700000000;
  start_ts = 1700000000;
  status = 200;
  error = some (codes "broken pipe");
  error_str = [];
  error_str_idx = 0;
  concurrency = 3;
  elapsed = 1500;
  connect_time = 100;
  sent_time = 200;
  first_byte_time = 300;
  read_time = 900;
  worker = 7;
  label = codes "login";
  label_idx = 0;
  sent_bytes_count = 70000;
  resp_bytes_count = 5;
  req_bytes = codes "GET /";
  resp_bytes = codes "token=ab";
}

abbrev writer : BufWriter
writer = record { file = codes "before"; buffer = codes "ab" }

abbrev asserts : List (AssertItem Bytes)
asserts =
    record { re = codes "token"; invert = false }
    ∷ record { re = codes "error"; invert = true }
    ∷ []

assert_lem_example :
    ((assert literal asserts item).error ≡ none)
    ↔ ((item.error ≡ none) × AllHold literal item.resp_bytes asserts)
assert_lem_example = assert_lem literal asserts item

abbrev specs : Map (ExtractRegex Bytes)
specs =
    (codes "t", record { re = codes "token"; group_no = 0; match_no = pos 0 })
    ∷ (codes "u", record { re = codes "user"; group_no = 1; match_no = negsuc 0 })
    ∷ []

abbrev found : Bytes → Bytes
found name = if equal name (codes "t") then codes "token" else placeholder

first : ℕ → ℕ
first n = 0

specs-FindAll : FindAll literal first item.resp_bytes specs found
unfolding find_literal equal
specs-FindAll =
    (nth_match 0 (codes "token" ∷ []) (codes "token") refl refl refl, (no_match refl, tt))

extract_values_lem_example :
    (vals : Map Bytes) × (extract_values literal first item.resp_bytes specs
        ((codes "kept", codes "1") ∷ [])
      ≡ ok vals)
    × ((name : Bytes)
        → lookup name vals ≡ elim (lookup name specs) [
          | none ↦ lookup name ((codes "kept", codes "1") ∷ [])
          | some spec ↦ some (found name)
        ])
extract_values_lem_example =
    extract_values_lem literal first item.resp_bytes specs found ((codes "kept", codes "1") ∷ [])
      specs-FindAll

-- One match, and the extractor asks for the second.
one_match : find_literal (codes "token") item.resp_bytes ≡ (codes "token" ∷ []) ∷ []
unfolding find_literal
one_match = refl

extract_values_few_matches_example :
    extract_values literal first item.resp_bytes
      ((codes "t", record { re = codes "token"; group_no = 0; match_no = pos 1 }) ∷ [])
      []
    ≡ panic index_out_of_range
extract_values_few_matches_example =
    extract_values_few_matches literal first item.resp_bytes (codes "t")
      (record { re = codes "token"; group_no = 0; match_no = pos 1 }) [] [] 1 refl
      (omega (arith, ap length one_match)) (omega (arith, ap length one_match))

-- Only the text of the request stands for the meta data here.
abbrev marshal : OutputItem → Bytes
marshal i = i.label

abbrev named : OutputItem
named = record item { error_str = codes "broken pipe" }

item-named : string_friendly none item ≡ ok named
unfolding string_friendly equal
item-named = refl

reqresp_push_lem_example :
    (w' : BufWriter) × (item' : OutputItem) × (reqresp_push marshal none 200 writer item
      ≡ ok (w', item'))
    × (stream w'
        ≡ stream writer ++ (if leb 200 item.status then concat (trace marshal named) else []))
    × (item' ≡ (if leb 200 item.status then named else item))
reqresp_push_lem_example = reqresp_push_lem marshal none 200 writer item named item-named
