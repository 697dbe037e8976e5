-- ===== src/Core/Status/Reports.antt =====
-- pkg/core/status.go: what a report says of the requests since the last one.
use native.Mathlib.Nat.{zero-add}
use encarno.Base.{
  ℕ, suc, ◌+◌, ◌/◌, ◌^◌, ◌%◌, ◌<◌, ◌≡◌, ◌==◌, refl, List, [], ◌∷◌, if◌then◌else◌, length, arith,
  slt, slt_small, ◌∙◌, ap,
}
use encarno.Core.Status.{Status, up, start_missed, report, quotient}

abbrev pub sum : List ℕ → ℕ
sum [] = 0
sum (n ∷ ns) = n + sum ns

-- `StartMissed` for each request.
abbrev pub start_all : Status → List ℕ → Status
start_all o [] = o
start_all o (late ∷ rest) = start_all (start_missed o late) rest

-- What should be left of a status.
abbrev pub counting : Status → ℕ → ℕ → Status
counting o missed cnt = record o { missed = missed; cnt = cnt }

start_missed_lem :
    (o : Status) (m c late : ℕ)
    → m + late < 2 ^ 64
    → c + 1 < 2 ^ 64
    → start_missed (counting o m c) late ≡ counting o (m + late) (c + 1)
unfolding start_missed
start_missed_lem o m c late h k =
    let e : (m + late) % 2 ^ 64 ≡ m + late = omega arith in
    let f : (c + 1) % 2 ^ 64 ≡ c + 1 = omega arith in
    ap (λ (a : ℕ). counting o a (up c)) e ∙ ap (counting o (m + late)) f

start_all_lem :
    (o : Status) (m c : ℕ) (lates : List ℕ)
    → m + sum lates < 2 ^ 64
    → c + length lates < 2 ^ 64
    → start_all (counting o m c) lates ≡ counting o (m + sum lates) (c + length lates)
start_all_lem o m c [] h k =
    let e : m ≡ m + 0 = omega arith in
    let f : c ≡ c + 0 = omega arith in ap (λ (a : ℕ). counting o a c) e ∙ ap (counting o (m + 0)) f
start_all_lem o m c (late ∷ rest) h k =
    let e : m + late + sum rest ≡ m + (late + sum rest) = omega arith in
    let f : c + 1 + length rest ≡ c + suc (length rest) = omega arith in
    ap (λ (a : Status). start_all a rest)
      (start_missed_lem o m c late (omega (arith, h)) (omega (arith, k)))
    ∙ start_all_lem o (m + late) (c + 1) rest (omega (arith, h)) (omega (arith, k))
    ∙ ap (λ (a : ℕ). counting o a (c + 1 + length rest)) e
    ∙ ap (counting o (m + (late + sum rest))) f

lag_lem :
    (round : ℕ → ℕ) (m c : ℕ)
    → m < 2 ^ 63
    → c < 2 ^ 63
    → (if slt 0 c then round (quotient m c) else 0) ≡ (if c == 0 then 0 else round (m / c))
lag_lem round m c h k = rw (slt_small 0 c (omega arith) k) (ground (arith, h))

module _ (round : ℕ → ℕ) where
  -- The requests since the last report started so many nanoseconds later than scheduled, none of
  -- them earlier, and these add up to less than 2^63. Then the report tells their number and, rounded,
  -- the whole nanoseconds of the mean, which is 0 without requests; the four counters are those
  -- that it reads; and the next report starts from nothing.
  pub report-start_all :
      (o at_working at_sleeping at_busy at_waiting : Status) (lates : List ℕ)
      → sum lates < 2 ^ 63
      → length lates < 2 ^ 63
      → report round at_working at_sleeping at_busy at_waiting (start_all (counting o 0 0) lates)
        ≡ (
          counting o 0 0,
          record {
            waiting = at_waiting.waiting;
            working = at_working.working;
            sleeping = at_sleeping.sleeping;
            busy = at_busy.busy;
            lag = if length lates == 0 then 0 else round (sum lates / length lates);
            reqs = length lates;
          },
        )
  unfolding report
  report-start_all o at_working at_sleeping at_busy at_waiting lates h k =
      let e : start_all (counting o 0 0) lates ≡ counting o (sum lates) (length lates) =
        start_all_lem o 0 0 lates (omega arith) (omega arith)
        ∙ ap (λ (a : ℕ). counting o a (0 + length lates)) (zero-add (sum lates))
        ∙ ap (counting o (sum lates)) (zero-add (length lates)) in
      rw e (rw (lag_lem round (sum lates) (length lates) h k) refl)
