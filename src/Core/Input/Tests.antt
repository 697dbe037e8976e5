-- ===== src/Core/Input/Tests.antt =====
-- Variables and the texts of extractors and assertions at concrete inputs.
use encarno.Base.{◌≡◌, refl, true, false, none, some, List, [], ◌∷◌, arith, ok}
use encarno.Base.Bytes.{Bytes, codes, equal}
use encarno.Base.Decimal.{itoa}
use encarno.Base.Int.{pos, negsuc}
use encarno.Base.Map.{Map, lookup, insert}
use encarno.Core.Input.{
  PayloadItem, get_string, resolve_strings, substitute, replace_names, replace_values, value_or,
}
use encarno.Core.Input.Decode.{compile_cached, decode_extracts}
use encarno.Core.Input.Decode.Formats.{
  ExtractSpec, AssertSpec, IsTransparent, ExtractTexts, insert_specs, decode_extracts-insert_specs,
  AssertTexts,
}
use encarno.Core.Input.Variables.{
  IsVariables, substitute_all, item_of, replace_values-substitute_all, replace_names_shared_cache,
}
use encarno.Core.Regexp.Literal.{literal}
use encarno.Core.StrIndex.{StrIndex}

-- The texts of examples/indexes.txt that examples/payload-indexes.txt refers to, with an inverted
-- assertion.
abbrev index : StrIndex
index = record {
  filename = codes "indexes.txt";
  index =
      []
      ∷ codes "http://localhost"
      ∷ codes "/"
      ∷ codes "address"
      ∷ codes "etag -1 1 ETag: (.+)"
      ∷ codes "1 error"
      ∷ [];
  mapping = [];
  opened = false;
  readonly = true;
  disk = none;
}

abbrev item : PayloadItem Bytes
item = record {
  label_idx = 2;
  label = [];
  address_idx = 1;
  address = [];
  payload_len = pos 3;
  payload = codes "GET";
  replaces_idx = [];
  replaces = codes "address" ∷ [];
  regex_out_idx = 4 ∷ [];
  regex_out = [];
  asserts_idx = 5 ∷ [];
  asserts = [];
  str_index = some index;
}

abbrev resolved : PayloadItem Bytes
resolved = record item {
  label_idx = 0;
  label = codes "/";
  address_idx = 0;
  address = codes "http://localhost";
}

resolve_strings-item : resolve_strings item ≡ ok resolved
unfolding resolve_strings get_string equal
resolve_strings-item = refl

no_cache-IsVariables : IsVariables literal []
unfolding lookup
no_cache-IsVariables = record { finds = λ name re h. cc }

no_cache-IsTransparent : IsTransparent literal []
unfolding lookup
no_cache-IsTransparent = record { same = λ expr re h. cc }

abbrev values : Map Bytes
values = (codes "address", codes "127.0.0.1") ∷ []

replace_values-substitute_all_example :
    item_of literal (replace_values literal values [] item)
    ≡ substitute_all literal values (codes "address" ∷ []) item
replace_values-substitute_all_example =
    replace_values-substitute_all literal values [] item no_cache-IsVariables

-- An assertion on "address" was compiled: the variable of that name is not what is replaced.
shared_cache :
    compile_cached literal [] (codes "address")
    ≡ some (codes "address", (codes "address", codes "address") ∷ [])
unfolding compile_cached lookup insert
shared_cache = refl

replace_names_shared_cache_example :
    replace_names literal values
      (codes "address" ∷ [])
      ((codes "address", codes "address") ∷ [])
      item
    ≡ ok (
      substitute literal resolved (codes "address") (value_or (lookup (codes "address") values)),
      (codes "address", codes "address") ∷ [],
    )
replace_names_shared_cache_example =
    replace_names_shared_cache literal values [] ((codes "address", codes "address") ∷ [])
      (codes "address") (codes "address") item resolved shared_cache resolve_strings-item

abbrev extracts : List (ExtractSpec × Bytes)
extracts =
    (
      record { name = codes "etag"; match_no = negsuc 0; group_no = 1; expr = codes "ETag: (.+)" },
      codes "ETag: (.+)",
    )
    ∷ []

extracts-ExtractTexts : ExtractTexts literal (some index) (4 ∷ []) extracts
unfolding get_string itoa
extracts-ExtractTexts = (refl, refl, omega arith, omega arith, refl, tt)

decode_extracts-insert_specs_example :
    (cache' : Map Bytes) × (decode_extracts literal [] item
      ≡ ok (
        some (record item { regex_out = insert_specs literal extracts []; regex_out_idx = [] }),
        cache',
      ))
    × IsTransparent literal cache'
decode_extracts-insert_specs_example =
    decode_extracts-insert_specs literal extracts [] item no_cache-IsTransparent
      extracts-ExtractTexts

abbrev asserted : List (AssertSpec × Bytes)
asserted = (record { invert = true; expr = codes "error" }, codes "error") ∷ []

asserted-AssertTexts : AssertTexts literal (some index) (5 ∷ []) asserted
unfolding get_string
asserted-AssertTexts = (refl, refl, tt)
