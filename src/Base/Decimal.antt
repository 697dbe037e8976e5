-- ===== src/Base/Decimal.antt =====
-- Go's `strconv.Itoa` and `strconv.Atoi`, for a 64-bit `int`.
use mathlib.Core.List.{concat-ne-nil}
use encarno.Base.{
  ℕ, zero, suc, ◌+◌, ◌-◌, ◌*◌, ◌/◌, ◌%◌, ◌^◌, ◌<◌, ◌≡◌, ◌≢◌, refl, Bool, true, false, ◌&&◌, Option,
  none, some, [], ◌∷◌, ◌++◌, arith, ltb, leb, ◌==◌, if◌then◌else◌,
}
use encarno.Base.Bytes.{Bytes, count}
use encarno.Base.Int.{ℤ, pos, negsuc}

-- The digits of a number, on fuel above it.
digits : ℕ → ℕ → Bytes
digits zero n = []
digits (suc f) n =
    let front = digits f (n / 10) in
    if ltb n 10 then (b'0' + n) ∷ [] else front ++ (b'0' + n % 10) ∷ []

unfoldable pub itoa : ℤ → Bytes
unfolding digits
itoa (pos n) = digits (suc n) n
itoa (negsuc n) = b'-' ∷ digits (suc (suc n)) (suc n)

abbrev pub is_digit : ℕ → Bool
is_digit c = leb b'0' c && leb c b'9'

-- The number that digits write behind others that write `acc`.
digits_value : ℕ → Bytes → Option ℕ
digits_value acc [] = some acc
digits_value acc (c ∷ cs) =
    let rest = digits_value (acc * 10 + (c - b'0')) cs in if is_digit c then rest else none

-- A text with no digits is refused.
abbrev magnitude : Bytes → Option ℕ
magnitude [] = none
magnitude (c ∷ cs) = digits_value 0 (c ∷ cs)

-- A number out of range is an error, and gives the nearest that is in range.
abbrev positive : Option ℕ → ℤ × Bool
positive none = (pos 0, false)
positive (some n) = if ltb n (2 ^ 63) then (pos n, true) else (pos (2 ^ 63 - 1), false)

abbrev negate : ℕ → ℤ
negate zero = pos 0
negate (suc n) = negsuc n

abbrev negative : Option ℕ → ℤ × Bool
negative none = (pos 0, false)
negative (some n) = if leb n (2 ^ 63) then (negate n, true) else (negsuc (2 ^ 63 - 1), false)

-- The number and whether there was no error.
unfoldable pub atoi : Bytes → ℤ × Bool
unfolding digits_value
atoi [] = (pos 0, false)
atoi (c ∷ cs) =
    if c == b'-'
    then negative (magnitude cs)
    else if c == b'+'
    then positive (magnitude cs)
    else positive (magnitude (c ∷ cs))

digits_value-append :
    (acc n : ℕ) (s : Bytes) (c : ℕ)
    → digits_value acc s ≡ some n
    → is_digit c ≡ true
    → digits_value acc (s ++ c ∷ []) ≡ some (n * 10 + (c - b'0'))
unfolding digits_value
digits_value-append acc n [] c h d = ground arith
digits_value-append acc n (x ∷ s) c h d =
    ground (arith, digits_value-append (acc * 10 + (x - b'0')) n s c)

digits_value-digits : (f n : ℕ) → n < f → digits_value 0 (digits f n) ≡ some n
unfolding digits
digits_value-digits zero n h = elim h [ ]
digits_value-digits (suc f) n h = ground (
  arith,
  digits_value-append 0 (n / 10) (digits f (n / 10)) (b'0' + n % 10),
  digits_value-digits f (n / 10),
  single n,
)
  where
    single : (k : ℕ) → k < 10 → digits_value 0 ((b'0' + k) ∷ []) ≡ some k
    single k b = unfold digits_value in ground arith

digits_ne : (f n : ℕ) → digits (suc f) n ≢ []
unfolding digits
digits_ne f n e = ground (arith, e, concat-ne-nil (b'0' + n % 10) (digits f (n / 10)))

-- What is written starts with a digit.
atoi_unsigned :
    (s : Bytes) (n : ℕ) → s ≢ [] → digits_value 0 s ≡ some n → n < 2 ^ 63 → atoi s ≡ (pos n, true)
unfolding atoi
atoi_unsigned [] n ne h lt = absurd (ne refl)
atoi_unsigned (c ∷ cs) n ne h lt = ground arith

-- The integers that fit 64 bits.
abbrev pub FitsInt : ℤ → Type 0
FitsInt (pos n) = n < 2 ^ 63
FitsInt (negsuc n) = n < 2 ^ 63

atoi_minus :
    (s : Bytes) (n : ℕ)
    → s ≢ []
    → digits_value 0 s ≡ some (suc n)
    → n < 2 ^ 63
    → atoi (b'-' ∷ s) ≡ (negsuc n, true)
unfolding atoi
atoi_minus [] n ne h lt = absurd (ne refl)
atoi_minus (c ∷ cs) n ne h lt = rw h (ground arith)

-- What `Itoa` writes of a 64-bit integer, `Atoi` reads with no error.
pub atoi-itoa : (z : ℤ) → FitsInt z → atoi (itoa z) ≡ (z, true)
atoi-itoa (pos n) h =
    unfold itoa in
    atoi_unsigned (digits (suc n) n) n (digits_ne n n) (digits_value-digits (suc n) n (omega arith))
      h
atoi-itoa (negsuc n) h =
    unfold itoa in
    atoi_minus (digits (suc (suc n)) (suc n)) n (digits_ne (suc n) (suc n))
      (digits_value-digits (suc (suc n)) (suc n) (omega arith)) h

count-append : (b : ℕ) (s t : Bytes) → count b (s ++ t) ≡ count b s + count b t
count-append b [] t = omega arith
count-append b (c ∷ s) t = omega (arith, count-append b s t)

count-digits : (b f n : ℕ) → b < b'0' → count b (digits f n) ≡ 0
unfolding digits
count-digits b zero n h = refl
count-digits b (suc f) n h =
    ground (
      arith,
      count-digits b f (n / 10) h,
      count-append b (digits f (n / 10)) ((b'0' + n % 10) ∷ []),
    )

-- No space is written.
pub count-itoa : (z : ℤ) → count b' ' (itoa z) ≡ 0
unfolding itoa
count-itoa (pos n) = count-digits b' ' (suc n) n (omega arith)
count-itoa (negsuc n) = omega (arith, count-digits b' ' (suc (suc n)) (suc n) (omega arith))
