-- ===== src/Core/StrIndex.antt =====
-- pkg/core/strindex.go: the index of strings, and the file that it is kept in.
-- The file named `filename` is the field `disk`, `none` while it does not exist; `opened` tells that
-- `fd` is set. The buffered writer is flushed on every line, so a written line is in `disk`.
-- `Idx` is its optimistic attempt, `idx_fast`, and the part under the mutex, `idx_locked`.
pub mod Lookup
pub mod Reload
pub mod Threads
mod Tests
use encarno.Base.{
  ℕ, ◌-◌, Bool, true, false, Option, none, some, List, [], ◌∷◌, ◌++◌, if◌then◌else◌, length,
  get_elem?, u16, Result, ok, panic, not_found, read_only, ◌>>=◌,
}
use encarno.Base.Bytes.{Bytes, equal}
use encarno.Base.Map.{Map, lookup, insert}
use encarno.Base.Scanner.{scan}

pub record StrIndex : Type 0 where
  pub filename : Bytes
  pub index : List Bytes
  pub mapping : Map ℕ
  pub opened : Bool
  pub readonly : Bool
  pub disk : Option Bytes

-- The loop body of `Load`, for one scanned line.
unfoldable pub add_line : StrIndex → Bytes → StrIndex
add_line s text =
    let index' = s.index ++ text ∷ [] in
    record s { index = index'; mapping = insert text (u16 (length index' - 1)) s.mapping }

unfoldable pub add_lines : StrIndex → List Bytes → StrIndex
add_lines s [] = s
add_lines s (text ∷ texts) = add_lines (add_line s text) texts

-- `Load`, on the content of the file.
unfoldable pub load : StrIndex → Bytes → Result StrIndex
load s content = do texts ← scan content; ok (add_lines s texts)

-- `disk` is what `os.Stat` finds under the name.
unfoldable pub load_existing : StrIndex → Option Bytes → Result StrIndex
load_existing s none = ok s
load_existing s (some text) = load s text

-- The literal that `NewStringIndex` starts from: the zero index is a placeholder.
abbrev pub placeholder : Bytes → Bool → Option Bytes → StrIndex
placeholder fname readonly disk = record {
  filename = fname;
  index = [] ∷ [];
  mapping = ([], 0) ∷ [];
  opened = false;
  readonly = readonly;
  disk = disk;
}

unfoldable pub new_string_index : Bytes → Bool → Option Bytes → Result StrIndex
unfolding load_existing load
new_string_index fname readonly disk =
    let ret = placeholder fname readonly disk in
    if equal fname [] then ok ret else load_existing ret disk

unfoldable pub get : StrIndex → ℕ → Result Bytes
get s idx = elim (get_elem? s.index idx) [ none ↦ panic (not_found idx) | some text ↦ ok text ]

-- What the file holds; one that does not exist holds nothing.
abbrev pub content : Option Bytes → Bytes
content none = []
content (some text) = text

unfoldable pub append_file : StrIndex → Bytes → StrIndex
append_file s label =
    if equal s.filename []
    then s
    else record s { opened = true; disk = some (content s.disk ++ (label ++ b'\n' ∷ [])) }

-- The attempt with no mutex.
unfoldable pub idx_fast : StrIndex → Bytes → Option ℕ
idx_fast s label = lookup label s.mapping

-- What runs under the mutex once the attempt has missed on an index that can change.
unfoldable pub idx_locked : StrIndex → Bytes → StrIndex × ℕ
idx_locked s label = elim (lookup label s.mapping) [
  | some idx ↦ (s, idx)
  | none ↦
      let index' = s.index ++ label ∷ [] in
      let idx = u16 (length index' - 1) in
      (append_file (record s { index = index'; mapping = insert label idx s.mapping }) label, idx)
]

unfoldable pub idx : StrIndex → Bytes → Result (StrIndex × ℕ)
unfolding idx_fast
idx s label = elim (idx_fast s label) [
  | some i ↦ ok (s, i)
  | none ↦ if s.readonly then panic (read_only label) else ok (idx_locked s label)
]
