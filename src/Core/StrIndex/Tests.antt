-- ===== src/Core/StrIndex/Tests.antt =====
-- The string index at concrete inputs.
use encarno.Base.{
  ℕ, zero, suc, ◌+◌, ◌>>=◌, ◌≡◌, refl, ap, ◌^◌, inr, true, false, some, none, List, [], ◌∷◌, length,
  get_elem?, ok, arith,
}
use encarno.Base.Bytes.{Bytes, codes, equal}
use encarno.Base.Map.{lookup, insert}
use encarno.Base.Scanner.{scan, drop_cr}
use encarno.Core.StrIndex.{
  StrIndex, placeholder, new_string_index, add_lines, add_line, get, idx_locked, append_file,
  idx_fast, idx,
}
use encarno.Core.StrIndex.Lookup.{
  IsSound, Indexes, get-idx, idx_all, Decodes, idx_all-Decodes, idx_full,
}
use encarno.Core.StrIndex.Reload.{IsSynced, AllLines, reload-idx_all, reload_newlines}
use encarno.Core.StrIndex.Threads.{
  System, start, missed, done, update, miss, lock, Reach, here, next, Inv, Reach-same_idx,
}

abbrev empty_index : StrIndex
empty_index = placeholder (codes "out.ostr") false none

empty_index-IsSound : IsSound empty_index
unfolding lookup equal
empty_index-IsSound = record { sound = λ l i h. ground arith; bounded = omega arith }

empty_index-IsSynced : IsSynced empty_index
unfolding scan
empty_index-IsSynced = record {
  named = λ e. cc;
  texts = [];
  scanned = refl;
  indexed = refl;
  terminated = tt;
}

-- The file of examples/: six lines, read behind the placeholder; an unknown text panics.
reads_a_file :
    (new_string_index (codes "in") true (some (codes "${address}\r\n/\naddress")) >>= λ s. get s 1)
    ≡ ok (codes "${address}")
unfolding new_string_index scan add_lines add_line get equal insert
reads_a_file = refl

get-idx_example :
    (t : StrIndex) × (i : ℕ) × (idx empty_index (codes "label") ≡ ok (t, i))
    × (get t i ≡ ok (codes "label"))
    × (idx t (codes "label") ≡ ok (t, i))
    × Indexes empty_index (codes "label") t i
get-idx_example = get-idx empty_index (codes "label") empty_index-IsSound (inr (refl, omega arith))

abbrev labels : List Bytes
labels = codes "one" ∷ codes "two" ∷ codes "one" ∷ []

idx_all-Decodes_example :
    (t : StrIndex) × (is : List ℕ) × (idx_all empty_index labels ≡ ok (t, is))
    × Decodes t labels is
    × IsSound t
    × ((j : ℕ) (m : Bytes) → get_elem? empty_index.index j ≡ some m → get_elem? t.index j ≡ some m)
idx_all-Decodes_example = idx_all-Decodes empty_index labels empty_index-IsSound refl (omega arith)

labels-AllLines : AllLines labels
unfolding drop_cr
labels-AllLines = (
  record { no_newline = refl; no_return = refl; fits = omega arith },
  (
    record { no_newline = refl; no_return = refl; fits = omega arith },
    (record { no_newline = refl; no_return = refl; fits = omega arith }, tt),
  ),
)

reload-idx_all_example :
    (t : StrIndex) × (is : List ℕ) × (u : StrIndex) × (idx_all empty_index labels ≡ ok (t, is))
    × (new_string_index t.filename true t.disk ≡ ok u)
    × Decodes u labels is
reload-idx_all_example =
    reload-idx_all empty_index labels true empty_index-IsSound empty_index-IsSynced refl
      (omega arith) labels-AllLines

-- A text with a line end: it has the number 1, and the file gives three entries for two.
abbrev two_lines : Bytes
two_lines = codes "a\nb"

abbrev after_two_lines : StrIndex
after_two_lines = record {
  filename = codes "out.ostr";
  index = [] ∷ two_lines ∷ [];
  mapping = ([], 0) ∷ (two_lines, 1) ∷ [];
  opened = true;
  readonly = false;
  disk = some (codes "a\nb\n");
}

abbrev reloaded : StrIndex
reloaded = record {
  filename = codes "out.ostr";
  index = [] ∷ codes "a" ∷ codes "b" ∷ [];
  mapping = ([], 0) ∷ (codes "a", 1) ∷ (codes "b", 2) ∷ [];
  opened = false;
  readonly = true;
  disk = some (codes "a\nb\n");
}

two_lines_missing : lookup {A = ℕ} two_lines (([], 0) ∷ []) ≡ none
unfolding lookup equal
two_lines_missing = refl

two_lines_added : idx empty_index two_lines ≡ ok (after_two_lines, 1)
unfolding idx idx_locked append_file lookup equal insert
two_lines_added = refl

two_lines_reloaded : new_string_index (codes "out.ostr") true (some (codes "a\nb\n")) ≡ ok reloaded
unfolding new_string_index scan add_lines add_line equal insert
two_lines_reloaded = refl

reload_newlines_example : length reloaded.index ≡ length after_two_lines.index + 1
reload_newlines_example =
    reload_newlines empty_index two_lines true empty_index-IsSynced two_lines_missing
      two_lines_added two_lines_reloaded

-- A full index.
blanks : ℕ → List Bytes
blanks zero = []
blanks (suc n) = [] ∷ blanks n

length-blanks : (n : ℕ) → length (blanks n) ≡ n
unfolding blanks
length-blanks zero = refl
length-blanks (suc n) = ap suc (length-blanks n)

full_index : StrIndex
full_index = record (placeholder [] false none) { index = blanks (2 ^ 16) }

full_index_length : length full_index.index ≡ 2 ^ 16
unfolding full_index
full_index_length = length-blanks (2 ^ 16)

idx_full_example :
    (t : StrIndex) × (idx full_index (codes "x") ≡ ok (t, 0))
    × (get t 0 ≡ get full_index 0)
    × (lookup (codes "x") t.mapping ≡ some 0)
idx_full_example =
    idx_full full_index (codes "x") (unfold full_index in refl) full_index_length
      (unfold full_index lookup equal in refl)

-- Two goroutines miss the same text, and add it one after the other.
abbrev two_calls : System
two_calls = record { shared = empty_index; calls = λ n. start (codes "x") }

two_calls-Inv : Inv two_calls
two_calls-Inv = record { still_sound = empty_index-IsSound; answered = λ n l i e. cc }

abbrev after_misses : System
after_misses = record two_calls {
  calls = update (update two_calls.calls 0 (missed (codes "x"))) 1 (missed (codes "x"));
}

abbrev after_first : System
after_first = record {
  shared = (idx_locked empty_index (codes "x")).0;
  calls = update after_misses.calls 0 (done (codes "x") (idx_locked empty_index (codes "x")).1);
}

abbrev after_both : System
after_both = record {
  shared = (idx_locked after_first.shared (codes "x")).0;
  calls =
      update after_first.calls 1 (done (codes "x") (idx_locked after_first.shared (codes "x")).1);
}

overtaken : Reach two_calls after_both
unfolding idx_fast idx_locked append_file lookup insert equal
overtaken =
    next
      (next
        (next (next here (miss 0 (codes "x") refl refl refl)) (miss 1 (codes "x") refl refl refl))
        (lock 0 (codes "x") refl))
      (lock 1 (codes "x") refl)

Reach-same_idx_example :
    (get_elem? after_both.shared.index 1 ≡ some (codes "x")) × (◌≡◌ {A = ℕ} 1 1)
unfolding idx_locked append_file lookup insert equal
Reach-same_idx_example =
    Reach-same_idx 0 1 (codes "x") 1 1 two_calls-Inv overtaken (omega arith) refl refl
