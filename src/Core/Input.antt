-- ===== src/Core/Input.antt =====
-- pkg/core/input.go: payload items and their variables.
-- `Re` is the type of compiled expressions. The process-wide `regexCache` is passed along.
pub mod Resolved
pub mod Variables
pub mod Decode
pub mod Reader
mod Tests
use encarno.Base.{
  ℕ, ◌&&◌, Bool, Option, none, some, List, [], ◌∷◌, ◌++◌, ltb, if◌then◌else◌, Result, ok, panic,
  nil_pointer, bad_regexp, ◌>>=◌,
}
use encarno.Base.Bytes.{Bytes, codes, equal}
use encarno.Base.Int.{ℤ}
use encarno.Base.Map.{Map, lookup, insert}
use encarno.Core.Regexp.{Regexp}
use encarno.Core.StrIndex.{StrIndex, get}

pub record ExtractRegex (Re : Type 0) : Type 0 where
  pub re : Re
  pub group_no : ℕ
  pub match_no : ℤ

pub record AssertItem (Re : Type 0) : Type 0 where
  pub re : Re
  pub invert : Bool

pub record PayloadItem (Re : Type 0) : Type 0 where
  pub label_idx : ℕ
  pub label : Bytes
  pub address_idx : ℕ
  pub address : Bytes
  pub payload_len : ℤ
  pub payload : Bytes
  pub replaces_idx : List ℕ
  pub replaces : List Bytes
  pub regex_out_idx : List ℕ
  pub regex_out : Map (ExtractRegex Re)
  pub asserts_idx : List ℕ
  pub asserts : List (AssertItem Re)
  pub str_index : Option StrIndex

-- `index.Get(idx)` through a pointer that may be nil.
unfoldable pub get_string : Option StrIndex → ℕ → Result Bytes
unfolding get
get_string none idx = panic nil_pointer
get_string (some index) idx = get index idx

-- One `if` of `ResolveStrings`: an index stands for a text that is not given, and is used up.
unfoldable pub resolve_text : Option StrIndex → ℕ → Bytes → Result (ℕ × Bytes)
resolve_text index idx given =
    if equal given [] && ltb 0 idx
    then (do text ← get_string index idx; ok (0, text))
    else ok (idx, given)

unfoldable pub resolve_strings : {Re : Type 0} → PayloadItem Re → Result (PayloadItem Re)
unfolding resolve_text
resolve_strings i = do
  (address_idx, address) ← resolve_text i.str_index i.address_idx i.address
  (label_idx, label) ← resolve_text i.str_index i.label_idx i.label
  ok (record i {
    address_idx = address_idx;
    address = address;
    label_idx = label_idx;
    label = label;
  })

-- The value that stands for a variable that has none.
abbrev pub no_value : Bytes
no_value = codes "NO_VALUE"

-- The expression that finds a variable.
abbrev pub variable_pattern : Bytes → Bytes
variable_pattern name = codes "(?m:\\$\\{" ++ (name ++ codes "})")

abbrev pub value_or : Option Bytes → Bytes
value_or none = no_value
value_or (some val) = val

module _ (R : Regexp) where
  open R use {Re, compile, replace_all}

  -- `MustCompile`
  unfoldable pub must_compile : Bytes → Result Re
  must_compile expr = elim (compile expr) [ none ↦ panic (bad_regexp expr) | some re ↦ ok re ]

  -- The expression of a variable, from the cache if its name is there.
  unfoldable pub variable_re : Map Re → Bytes → Result (Re × Map Re)
  variable_re cache name = elim (lookup name cache) [
    | some re ↦ ok (re, cache)
    | none ↦ (do re ← must_compile (variable_pattern name); ok (re, insert name re cache))
  ]

  -- The loop body's three replacements.
  unfoldable pub substitute : PayloadItem Re → Re → Bytes → PayloadItem Re
  substitute i re val = record i {
    payload = replace_all re i.payload val;
    label = replace_all re i.label val;
    address = replace_all re i.address val;
  }

  -- The loop of `ReplaceValues` over names.
  unfoldable pub replace_names :
      Map Bytes → List Bytes → Map Re → PayloadItem Re → Result (PayloadItem Re × Map Re)
  replace_names values [] cache i = ok (i, cache)
  replace_names values (name ∷ names) cache i = do
    i' ← resolve_strings i
    (re, cache') ← variable_re cache name
    replace_names values names cache' (substitute i' re (value_or (lookup name values)))

  unfoldable pub replace_values :
      Map Bytes → Map Re → PayloadItem Re → Result (PayloadItem Re × Map Re)
  replace_values values cache i = replace_names values i.replaces cache i
