-- ===== src/Core/StrIndex/Reload.antt =====
-- What a process that opens the strings file later reads from it.
use mathlib.Core.List.{append-nil, append_assoc}
use encarno.Base.{
  ℕ, ◌+◌, ◌^◌, ◌≤◌, ◌≡◌, refl, ap, sym, ◌∙◌, ◌≢◌, inl, inr, Bool, false, Option, none, some, List,
  [], ◌∷◌, ◌++◌, arith, length, length-append, Option-cases, ok, bind-eq-ok, Result-cases,
}
use encarno.Base.Bytes.{Bytes, equal_ne, count}
use encarno.Base.Map.{lookup}
use encarno.Base.Scanner.{
  scan, tokens, raw_lines, IsTerminated, IsLine, raw_lines-append, raw_lines_line, tokens-append,
  length-raw_lines,
}
use encarno.Core.StrIndex.{
  StrIndex, load_existing, placeholder, add_line, add_lines, load, new_string_index, content,
  append_file, idx_locked, idx, get,
}
use encarno.Core.StrIndex.Lookup.{
  idx_locked_new, idx_locked_known, idx_result, idx_new, IsSound, Decodes, idx_all, idx_all-Decodes,
}

-- The file holds the index, a line to each text but the first, and can be added to.
pub record IsSynced (s : StrIndex) : Type 0 where
  pub named : s.filename ≢ []
  pub texts : List Bytes
  pub scanned : scan (content s.disk) ≡ ok texts
  pub indexed : s.index ≡ [] ∷ texts
  pub terminated : IsTerminated (content s.disk)

IsTerminated-append_line : (s l : Bytes) → IsTerminated (s ++ (l ++ b'\n' ∷ []))
IsTerminated-append_line [] [] = refl
IsTerminated-append_line [] (c ∷ []) = refl
IsTerminated-append_line [] (c ∷ d ∷ l) = IsTerminated-append_line [] (d ∷ l)
IsTerminated-append_line (c ∷ []) [] = refl
IsTerminated-append_line (c ∷ []) (d ∷ l) = IsTerminated-append_line [] (d ∷ l)
IsTerminated-append_line (c ∷ d ∷ s) l = IsTerminated-append_line (d ∷ s) l

tokens_line : (l : Bytes) → IsLine l → tokens (l ∷ []) ≡ ok (l ∷ [])
unfolding tokens
tokens_line l line = ground (arith, line.no_return, line.fits)

pub scan-append_line :
    (text l : Bytes) {texts : List Bytes}
    → scan text ≡ ok texts
    → IsTerminated text
    → IsLine l
    → scan (text ++ (l ++ b'\n' ∷ [])) ≡ ok (texts ++ l ∷ [])
unfolding scan
scan-append_line text l h e line =
    rw (raw_lines-append text (l ++ b'\n' ∷ []) e, raw_lines_line l line.no_newline)
      (tokens-append (raw_lines text) (l ∷ []) (tokens_line l line) ∙ rw h)

pub index-add_lines : (s : StrIndex) (ls : List Bytes) → (add_lines s ls).index ≡ s.index ++ ls
unfolding add_lines add_line
index-add_lines s [] = sym (append-nil s.index)
index-add_lines s (l ∷ ls) = index-add_lines (add_line s l) ls ∙ append_assoc s.index (l ∷ []) ls

load_existing_lem :
    (s : StrIndex) (d : Option Bytes) (texts : List Bytes)
    → scan (content d) ≡ ok texts
    → load_existing s d ≡ ok (add_lines s texts)
unfolding load_existing
load_existing_lem s none texts h = unfold scan add_lines in let e : texts ≡ [] = cc h in rw e
load_existing_lem s (some text) texts h = unfold load in rw h

-- Loading the file of a synced index gives its texts, in their places.
pub new_string_index-IsSynced :
    (s : StrIndex) (readonly : Bool)
    → IsSynced s
    → (t : StrIndex) × (new_string_index s.filename readonly s.disk ≡ ok t) × (t.index ≡ s.index)
unfolding new_string_index
new_string_index-IsSynced s readonly w =
    let ret = placeholder s.filename readonly s.disk in
    (
      add_lines ret w.texts,
      rw (equal_ne s.filename [] w.named) (load_existing_lem ret s.disk w.texts w.scanned),
      index-add_lines ret w.texts ∙ sym w.indexed,
    )

disk-append_file :
    (s : StrIndex) (l : Bytes)
    → s.filename ≢ []
    → (content (append_file s l).disk ≡ content s.disk ++ (l ++ b'\n' ∷ []))
      × ((append_file s l).filename ≡ s.filename)
unfolding append_file
disk-append_file s l n = rw (equal_ne s.filename [] n) (refl, refl)

disk-idx_locked :
    (s : StrIndex) (l : Bytes)
    → s.filename ≢ []
    → lookup l s.mapping ≡ none
    → (content (idx_locked s l).0.disk ≡ content s.disk ++ (l ++ b'\n' ∷ []))
      × ((idx_locked s l).0.filename ≡ s.filename)
unfolding idx_locked
disk-idx_locked s l n h = rw (h, idx_locked) (disk-append_file _ l n)

idx_locked-IsSynced :
    (s : StrIndex) (l : Bytes) → IsSynced s → IsLine l → IsSynced (idx_locked s l).0
idx_locked-IsSynced s l w line = elim (Option-cases (lookup l s.mapping)) [
  | inr (i, h) ↦ rw (idx_locked_known s l i h) w
  | inl h ↦
      let (d, f) = disk-idx_locked s l w.named h in
      record {
        named = rw f w.named;
        texts = w.texts ++ l ∷ [];
        scanned = rw d (scan-append_line (content s.disk) l w.scanned w.terminated line);
        indexed = (idx_locked_new s l h).0 ∙ rw w.indexed;
        terminated = rw d (IsTerminated-append_line (content s.disk) l);
      }
]

idx-IsSynced :
    (s : StrIndex) (l : Bytes) {t : StrIndex} {i : ℕ}
    → IsSynced s
    → IsLine l
    → idx s l ≡ ok (t, i)
    → IsSynced t
idx-IsSynced s l w line e = elim (idx_result s l e) [
  | inl known ↦ rw known w
  | inr new ↦ rw new (idx_locked-IsSynced s l w line)
]

-- Every text of a list is a line.
abbrev pub AllLines : List Bytes → Type 0
AllLines [] = Unit
AllLines (l ∷ ls) = IsLine l × AllLines ls

idx_all-IsSynced :
    (s : StrIndex) (ls : List Bytes) {t : StrIndex} {is : List ℕ}
    → IsSynced s
    → AllLines ls
    → idx_all s ls ≡ ok (t, is)
    → IsSynced t
unfolding idx_all
idx_all-IsSynced s [] {t} w lines e = let q : t ≡ s = cc e in rw q w
idx_all-IsSynced s (l ∷ ls) {t} {is} w lines e =
    let (a, e', rest) = bind-eq-ok (idx s l) _ e in
    let (b, e'', last) = bind-eq-ok (idx_all a.0 ls) _ rest in
    let q : t ≡ b.0 = cc last in
    rw q (idx_all-IsSynced a.0 ls (idx-IsSynced s l w lines.0 e') lines.1 e'')

same_index-Decodes :
    (t u : StrIndex) (ls : List Bytes) (is : List ℕ)
    → u.index ≡ t.index
    → Decodes t ls is
    → Decodes u ls is
unfolding get
same_index-Decodes t u [] [] e d = d
same_index-Decodes t u [] (i ∷ is) e d = d
same_index-Decodes t u (l ∷ ls) [] e d = d
same_index-Decodes t u (l ∷ ls) (i ∷ is) e d = (rw (e, get) d.0, same_index-Decodes t u ls is e d.1)

-- From a sound index that is in step with its file, can change and has a number for each of the
-- texts: `Idx` gives numbers to any texts that are lines for bufio.Scanner, that is, that have no
-- newline, do not end in a carriage return, and are shorter than the 65536 bytes of its buffer. The
-- numbers lead to the same texts in the index that `NewStringIndex` then makes of the file.
pub reload-idx_all :
    (s : StrIndex) (ls : List Bytes) (readonly : Bool)
    → IsSound s
    → IsSynced s
    → s.readonly ≡ false
    → length s.index + length ls ≤ 2 ^ 16
    → AllLines ls
    → (t : StrIndex) × (is : List ℕ) × (u : StrIndex) × (idx_all s ls ≡ ok (t, is))
      × (new_string_index t.filename readonly t.disk ≡ ok u)
      × Decodes u ls is
reload-idx_all s ls readonly w sync m fits lines =
    let (t, is, e, d, w', keep) = idx_all-Decodes s ls w m fits in
    let (u, opened, same) =
      new_string_index-IsSynced t readonly (idx_all-IsSynced s ls sync lines e) in
    (t, is, u, e, opened, same_index-Decodes t u ls is same d)

length-tokens : (ls ts : List Bytes) → tokens ls ≡ ok ts → length ts ≡ length ls
unfolding tokens
length-tokens [] ts h = let e : ts ≡ [] = cc h in rw e
length-tokens (l ∷ ls) ts h = elim (Result-cases (tokens ls)) [
  | inl (us, e) ↦ ground (arith, h, e, length-tokens ls us e)
  | inr (p, e) ↦ absurd (ground (arith, h, e))
]

load_existing_inv :
    (s : StrIndex) (d : Option Bytes) (u : StrIndex)
    → load_existing s d ≡ ok u
    → (texts : List Bytes) × (scan (content d) ≡ ok texts) × (u ≡ add_lines s texts)
unfolding load_existing
load_existing_inv s none u h = unfold scan add_lines in ([], refl, cc h)
load_existing_inv s (some text) u h =
    unfold load in let (texts, e, last) = bind-eq-ok (scan text) _ h in (texts, e, cc last)

-- Opening a file reads one entry for each of its lines, behind the placeholder.
length-new_string_index :
    (fname : Bytes) (readonly : Bool) (d : Option Bytes) (u : StrIndex)
    → fname ≢ []
    → new_string_index fname readonly d ≡ ok u
    → length u.index ≡ length (raw_lines (content d)) + 1
unfolding new_string_index
length-new_string_index fname readonly d u n h =
    let ret = placeholder fname readonly d in
    let (texts, e, q) = load_existing_inv ret d u (rw (equal_ne fname [] n) at h) in
    rw q (
      omega (
        arith,
        ap length (index-add_lines ret texts),
        length-tokens (raw_lines (content d)) texts (unfold scan in e),
      ))

-- A text with line ends that is added to an index in step with its file takes several lines there:
-- whoever opens the file afterwards, if every line can be read, gets as many entries more than
-- the index has.
pub reload_newlines :
    (s : StrIndex) (l : Bytes) (readonly : Bool) {t u : StrIndex} {i : ℕ}
    → IsSynced s
    → lookup l s.mapping ≡ none
    → idx s l ≡ ok (t, i)
    → new_string_index t.filename readonly t.disk ≡ ok u
    → length u.index ≡ length t.index + count b'\n' l
reload_newlines s l readonly {t} {u} w missing e opened =
    let q = idx_new s l missing e in
    let (d, f) = disk-idx_locked s l w.named missing in
    omega (
      arith,
      ap (λ (x : StrIndex). length x.index) q,
      ap length (idx_locked_new s l missing).0,
      ap length w.indexed,
      length-append s.index (l ∷ []),
      length-new_string_index t.filename readonly t.disk u (rw (q, f) w.named) opened,
      ap (λ (x : StrIndex). length (raw_lines (content x.disk))) q,
      ap (λ (x : Bytes). length (raw_lines x)) d,
      ap length (raw_lines-append (content s.disk) (l ++ b'\n' ∷ []) w.terminated),
      length-append (raw_lines (content s.disk)) (raw_lines (l ++ b'\n' ∷ [])),
      length-raw_lines l,
      length-tokens (raw_lines (content s.disk)) w.texts (unfold scan in w.scanned),
    )
