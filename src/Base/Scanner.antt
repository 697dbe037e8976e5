-- ===== src/Base/Scanner.antt =====
-- Go's `bufio.Scanner` with its default split function, `bufio.ScanLines`.
use encarno.Base.{
  ℕ, ◌+◌, ◌<◌, ◌≡◌, refl, ◌≢◌, List, [], ◌∷◌, ◌++◌, arith, ltb, ◌==◌, if◌then◌else◌, length, Result,
  ok, panic, line_too_long, ◌>>=◌,
}
use encarno.Base.Bytes.{Bytes, count}

push : ℕ → List Bytes → List Bytes
push c [] = (c ∷ []) ∷ []
push c (l ∷ ls) = (c ∷ l) ∷ ls

-- The lines of a text without their newlines; a last line need not have one.
unfoldable pub raw_lines : Bytes → List Bytes
unfolding push
raw_lines [] = []
raw_lines (c ∷ cs) = let rest = raw_lines cs in if c == b'\n' then [] ∷ rest else push c rest

-- `dropCR`: one carriage return at the end of a line goes.
unfoldable pub drop_cr : Bytes → Bytes
drop_cr [] = []
drop_cr (c ∷ []) = if c == b'\r' then [] else c ∷ []
drop_cr (c ∷ d ∷ cs) = c ∷ drop_cr (d ∷ cs)

-- `bufio.MaxScanTokenSize`: a longer line does not fit the buffer, and the scan fails.
abbrev pub max_token : ℕ
max_token = 65536

unfoldable pub tokens : List Bytes → Result (List Bytes)
unfolding drop_cr
tokens [] = ok []
tokens (l ∷ ls) =
    let rest = tokens ls in
    if ltb (length l) max_token then (do ts ← rest; ok (drop_cr l ∷ ts)) else panic line_too_long

unfoldable pub scan : Bytes → Result (List Bytes)
unfolding raw_lines tokens
scan text = tokens (raw_lines text)

-- A text to which a line can be added: it is empty, or ends in a newline.
abbrev pub IsTerminated : Bytes → Type 0
IsTerminated [] = Unit
IsTerminated (c ∷ []) = c ≡ b'\n'
IsTerminated (c ∷ d ∷ cs) = IsTerminated (d ∷ cs)

-- A text that one line of a file can hold.
pub record IsLine (l : Bytes) : Type 0 where
  pub no_newline : count b'\n' l ≡ 0
  pub no_return : drop_cr l ≡ l
  pub fits : length l < max_token

raw_lines_ne : (c : ℕ) (cs : Bytes) → raw_lines (c ∷ cs) ≢ []
unfolding raw_lines push
raw_lines_ne c cs h = ground arith

push-append : (c : ℕ) (ls ms : List Bytes) → ls ≢ [] → push c (ls ++ ms) ≡ push c ls ++ ms
unfolding push
push-append c [] ms h = absurd (h refl)
push-append c (l ∷ ls) ms h = refl

pub raw_lines-append :
    (s t : Bytes) → IsTerminated s → raw_lines (s ++ t) ≡ raw_lines s ++ raw_lines t
raw_lines-append [] t h = unfold raw_lines in refl
raw_lines-append (c ∷ []) t h = unfold raw_lines push in ground arith
raw_lines-append (c ∷ d ∷ cs) t h = ground (
  arith,
  unfold_cons c ((d ∷ cs) ++ t),
  unfold_cons c (d ∷ cs),
  raw_lines-append (d ∷ cs) t h,
  push-append c (raw_lines (d ∷ cs)) (raw_lines t) (raw_lines_ne d cs),
)
  where
    unfold_cons :
        (c : ℕ) (cs : Bytes)
        → raw_lines (c ∷ cs) ≡ (if c == b'\n' then [] ∷ raw_lines cs else push c (raw_lines cs))
    unfold_cons c cs = unfold raw_lines in refl

pub raw_lines_line : (l : Bytes) → count b'\n' l ≡ 0 → raw_lines (l ++ b'\n' ∷ []) ≡ l ∷ []
unfolding raw_lines push
raw_lines_line [] h = refl
raw_lines_line (c ∷ cs) h = ground (arith, raw_lines_line cs)

-- A line end shows as one more line.
pub length-raw_lines : (s : Bytes) → length (raw_lines (s ++ b'\n' ∷ [])) ≡ count b'\n' s + 1
unfolding raw_lines push
length-raw_lines [] = refl
length-raw_lines (c ∷ cs) = ground (arith, length-raw_lines cs)

pub tokens-append :
    (ls ms : List Bytes) {us : List Bytes}
    → tokens ms ≡ ok us
    → tokens (ls ++ ms) ≡ (tokens ls >>= λ ts. ok (ts ++ us))
unfolding tokens
tokens-append [] ms h = ground arith
tokens-append (l ∷ ls) ms h = ground (arith, tokens-append ls ms h)
