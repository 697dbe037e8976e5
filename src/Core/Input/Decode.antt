-- ===== src/Core/Input/Decode.antt =====
-- pkg/core/input.go: the texts that the indexes of an item stand for.
-- A loop that meets an error returns `none` for the item, which its caller gives up, and the
-- `regexCache` as the loop leaves it: what it has compiled stays there.
pub mod Formats
use encarno.Base.{ℕ, not, Option, none, some, List, [], ◌∷◌, ◌++◌, ◌^◌, ◌-◌, Result, ok, ◌>>=◌}
use mathlib.Core.Option
use encarno.Base.Bytes.{Bytes, codes, equal, cut}
use encarno.Base.Decimal.{atoi}
use encarno.Base.Int.{ℤ, pos, negsuc}
use encarno.Base.Map.{Map, lookup, insert}
use encarno.Core.Input.{PayloadItem, ExtractRegex, AssertItem, get_string}
use encarno.Core.Regexp.{Regexp}
use encarno.Core.StrIndex.{StrIndex}

module _ {Re : Type 0} where
  -- The loop of `decodeReplaces`.
  unfoldable pub append_replaces : List ℕ → PayloadItem Re → Result (PayloadItem Re)
  append_replaces [] item = ok item
  append_replaces (idx ∷ idxs) item = do
    s ← get_string item.str_index idx
    append_replaces idxs (record item { replaces = item.replaces ++ s ∷ [] })

  unfoldable pub decode_replaces : PayloadItem Re → Result (PayloadItem Re)
  unfolding append_replaces
  decode_replaces item = do
    item' ← append_replaces item.replaces_idx item
    ok (record item' { replaces_idx = [] })

-- `uint(g)`
abbrev pub to_uint : ℤ → ℕ
to_uint (pos n) = n
to_uint (negsuc n) = 2 ^ 64 - 1 - n

module _ (R : Regexp) where
  open R use {Re, compile}

  -- The expression of a text, from the cache if it is there; `none` is an error.
  unfoldable pub compile_cached : Map Re → Bytes → Option (Re × Map Re)
  compile_cached cache sre = elim (lookup sre cache) [
    | some r ↦ some (r, cache)
    | none ↦ elim (compile sre) [ none ↦ none | some r ↦ some (r, insert sre r cache) ]
  ]

  -- The loop body of `decodeAsserts`, on the text of an assertion.
  unfoldable pub decode_assert : Map Re → PayloadItem Re → Bytes → Option (PayloadItem Re × Map Re)
  decode_assert cache item s =
      let (invert, sre, _) = cut b' ' s in
      elim (compile_cached cache sre) [
        | none ↦ none
        | some (re, cache') ↦ some (
          record item {
            asserts =
                item.asserts ++ record { re = re; invert = not (equal invert (codes "0")) } ∷ [];
          },
          cache',
        )
      ]

  -- The loop of `decodeAsserts`.
  unfoldable pub append_asserts :
      List ℕ → Map Re → PayloadItem Re → Result (Option (PayloadItem Re) × Map Re)
  unfolding decode_assert
  append_asserts [] cache item = ok (some item, cache)
  append_asserts (idx ∷ idxs) cache item = do
    s ← get_string item.str_index idx
    elim (decode_assert cache item s) [
      | none ↦ ok (none, cache)
      | some (item', cache') ↦ append_asserts idxs cache' item'
    ]

  unfoldable pub decode_asserts :
      Map Re → PayloadItem Re → Result (Option (PayloadItem Re) × Map Re)
  unfolding append_asserts
  decode_asserts cache item = do
    (decoded, cache') ← append_asserts item.asserts_idx cache item
    ok (Option.map (λ (i : PayloadItem Re). record i { asserts_idx = [] }) decoded, cache')

  -- The loop body of `decodeExtracts`, on the text of an extractor. An `Atoi` that fails still
  -- gives a number.
  unfoldable pub decode_extract : Map Re → PayloadItem Re → Bytes → Option (PayloadItem Re × Map Re)
  decode_extract cache item s =
      let (name, s', _) = cut b' ' s in
      let (match, s'', _) = cut b' ' s' in
      let (group, sre, _) = cut b' ' s'' in
      elim (compile_cached cache sre) [
        | none ↦ none
        | some (re, cache') ↦ some (
          record item {
            regex_out =
                insert name
                  (record { re = re; group_no = to_uint (atoi group).0; match_no = (atoi match).0 })
                  item.regex_out;
          },
          cache',
        )
      ]

  -- The loop of `decodeExtracts`.
  unfoldable pub insert_extracts :
      List ℕ → Map Re → PayloadItem Re → Result (Option (PayloadItem Re) × Map Re)
  unfolding decode_extract
  insert_extracts [] cache item = ok (some item, cache)
  insert_extracts (idx ∷ idxs) cache item = do
    s ← get_string item.str_index idx
    elim (decode_extract cache item s) [
      | none ↦ ok (none, cache)
      | some (item', cache') ↦ insert_extracts idxs cache' item'
    ]

  unfoldable pub decode_extracts :
      Map Re → PayloadItem Re → Result (Option (PayloadItem Re) × Map Re)
  unfolding insert_extracts
  decode_extracts cache item = do
    (decoded, cache') ← insert_extracts item.regex_out_idx cache item
    ok (Option.map (λ (i : PayloadItem Re). record i { regex_out_idx = [] }) decoded, cache')
