-- ===== src/Scenario/Open/Schedules.antt =====
-- The offsets of an open schedule.
use mathlib.Core.Bool.{and-false}
use encarno.Base.{
  ℕ, zero, suc, ◌+◌, ◌*◌, ◌^◌, ◌≤◌, ◌<◌, ◌≡◌, refl, true, false, not, ◌&&◌, inl, inr, List, [], ◌∷◌,
  ◌==◌, replicate, arith, u64, slt, slt_small, ltb, Bool-cases,
}
use native.Mathlib.Nat.{suc-mul, zero-mul}
use encarno.Base.Double.{Double}
use encarno.Core.Workload.{WorkloadLevel}
use encarno.Scenario.Open.{
  closed, running, rate, interval, interval_ns, second, schedule, generate_schedule,
}

-- Each offset is at least the one before it, and is no negative int64.
abbrev pub IsAscending : ℕ → List ℕ → Type 0
IsAscending last [] = Unit
IsAscending last (o ∷ os) = (last ≤ o) × (o < 2 ^ 63) × IsAscending o os

-- One more interval does not pass the end of int64.
next_offset :
    (fuel gap accum ns : ℕ)
    → ns ≤ gap
    → accum + suc fuel * gap < 2 ^ 63
    → (accum ≤ u64 (accum + ns))
      × (u64 (accum + ns) < 2 ^ 63)
      × (u64 (accum + ns) + fuel * gap < 2 ^ 63)
next_offset fuel gap accum ns h b =
    let e = suc-mul fuel gap in (omega (arith, e), omega (arith, e), omega (arith, e))

module _ (D : Double) where
  open D use {of_int64, eq, lt}

  abbrev pub total : List (WorkloadLevel D) → ℕ
  total [] = 0
  total (step ∷ steps) = step.duration + total steps

  -- Requests of a level are at least `low` and at most `gap` nanoseconds apart.
  pub record IsPaced (low gap : ℕ) (step : WorkloadLevel D) : Type 0 where
    pub at_least : (cnt : ℕ) → low ≤ interval_ns D step cnt
    pub at_most : (cnt : ℕ) → interval_ns D step cnt ≤ gap
    pub moves : (cnt : ℕ) → eq (interval D step cnt) (of_int64 0) ≡ false

  abbrev pub AllPaced : ℕ → ℕ → List (WorkloadLevel D) → Type 0
  AllPaced low gap [] = Unit
  AllPaced low gap (step ∷ steps) = IsPaced low gap step × AllPaced low gap steps

  schedule-IsAscending :
      (fuel : ℕ) (steps : List (WorkloadLevel D)) (low gap cnt accum finished_steps : ℕ)
      → AllPaced low gap steps
      → accum + fuel * gap < 2 ^ 63
      → IsAscending accum (schedule D fuel steps cnt accum finished_steps).0
  unfolding schedule
  schedule-IsAscending fuel [] low gap cnt accum finished_steps w b = tt
  schedule-IsAscending zero (step ∷ steps) low gap cnt accum finished_steps w b = tt
  schedule-IsAscending (suc fuel) (step ∷ steps) low gap cnt accum finished_steps (w, ws) b =
      let next = u64 (accum + interval_ns D step cnt) in
      let (le, small, b') = next_offset fuel gap accum (interval_ns D step cnt) (w.at_most cnt) b in
      elim (Bool-cases (not (accum == 0) && eq (interval D step cnt) (of_int64 0))) [
        | inl e ↦ rw e tt
        | inr e ↦ rw e (elim (Bool-cases (slt (u64 (finished_steps + step.duration)) next)) [
          | inl f ↦
              rw f (le, small, schedule-IsAscending fuel steps low gap (cnt + 1) next next ws b')
          | inr f ↦ rw f (
            le,
            small,
            schedule-IsAscending fuel (step ∷ steps) low gap (cnt + 1) next finished_steps (w, ws)
                b',
          )
        ])
      ]

  -- The time that is left, with one interval for each level that is not done.
  abbrev time_left : ℕ → List (WorkloadLevel D) → ℕ
  time_left low [] = 0
  time_left low (step ∷ steps) = step.duration + low + time_left low steps

  abbrev first_duration : List (WorkloadLevel D) → ℕ
  first_duration [] = 0
  first_duration (step ∷ steps) = step.duration

  schedule_closed :
      (fuel : ℕ) (steps : List (WorkloadLevel D)) (low gap cnt accum finished_steps : ℕ)
      → AllPaced low gap steps
      → 0 < low
      → finished_steps ≤ accum
      → accum ≤ finished_steps + first_duration steps
      → accum + fuel * gap + total steps < 2 ^ 63
      → finished_steps + time_left low steps ≤ accum + fuel * low
      → (schedule D fuel steps cnt accum finished_steps).1 ≡ closed
  unfolding schedule
  schedule_closed fuel [] low gap cnt accum fin w p le ge b enough = refl
  schedule_closed zero (step ∷ steps) low gap cnt accum fin (w, ws) p le ge b enough =
      absurd (omega (arith, zero-mul low))
  schedule_closed (suc fuel) (step ∷ steps) low gap cnt accum fin (w, ws) p le ge b enough =
      let next = u64 (accum + interval_ns D step cnt) in
      let end = u64 (fin + step.duration) in
      let e : next ≡ accum + interval_ns D step cnt =
        omega (arith, w.at_most cnt, suc-mul fuel gap) in
      let f : end ≡ fin + step.duration = omega arith in
      let low_ns : low ≤ interval_ns D step cnt = w.at_least cnt in
      let gap_ns : interval_ns D step cnt ≤ gap = w.at_most cnt in
      let test = slt_small end next (omega arith) (omega (arith, suc-mul fuel gap)) in
      rw (w.moves cnt) (
        rw (and-false (not (accum == 0))) (elim (Bool-cases (ltb end next)) [
          | inl t ↦
              rw (test, t)
                (schedule_closed fuel steps low gap (cnt + 1) next next ws p (omega arith)
                  (omega arith) (omega (arith, suc-mul fuel gap)) (omega (arith, suc-mul fuel low)))
          | inr t ↦
              rw (test, t)
                (schedule_closed fuel (step ∷ steps) low gap (cnt + 1) next fin (w, ws) p
                  (omega arith) (ground (arith, t, e, f)) (omega (arith, suc-mul fuel gap))
                  (omega (arith, suc-mul fuel low)))
        ]))

  -- Where any two requests of a level are at least one and at most `gap` nanoseconds apart, and
  -- no offset can pass the end of int64, the schedule comes to its end: as many rounds are enough as
  -- there are intervals of the shortest length in the levels' durations, and one for each level. Its
  -- offsets never decrease.
  pub generate_schedule_closed :
      (fuel : ℕ) (scenario : List (WorkloadLevel D)) (low gap : ℕ)
      → AllPaced low gap scenario
      → 0 < low
      → fuel * gap + total scenario < 2 ^ 63
      → time_left low scenario ≤ fuel * low
      → ((generate_schedule D fuel scenario).1 ≡ closed)
        × IsAscending 0 (generate_schedule D fuel scenario).0
  generate_schedule_closed fuel scenario low gap w p b enough = (
    schedule_closed fuel scenario low gap 0 0 0 w p (omega arith) (omega arith) (omega arith)
        (omega arith),
    schedule-IsAscending fuel scenario low gap 0 0 0 w (omega arith),
  )

  rate_flat :
      (step : WorkloadLevel D) (cnt : ℕ)
      → eq step.level_start step.level_end ≡ true
      → rate D step cnt ≡ step.level_end
  unfolding rate
  rate_flat step cnt e = rw e refl

  interval_idle :
      (step : WorkloadLevel D) (cnt : ℕ)
      → lt (of_int64 0) (rate D step cnt) ≡ false
      → interval D step cnt ≡ of_int64 0
  unfolding interval
  interval_idle step cnt h = rw h refl

  interval_ns_idle :
      (step : WorkloadLevel D) (cnt : ℕ)
      → D.to_int64 (D.mul (of_int64 0) (second D)) ≡ 0
      → eq step.level_start step.level_end ≡ true
      → lt (of_int64 0) step.level_end ≡ false
      → interval_ns D step cnt ≡ 0
  unfolding interval_ns
  interval_ns_idle step cnt z e h =
      rw (interval_idle step cnt (rw (rate_flat step cnt e) h), interval_ns) z

  -- A first level with no rate, a pause before the load, is no pause: its schedule gives the offset
  -- zero again and again, and never comes to an end.
  pub schedule_idle :
      (fuel cnt : ℕ) (step : WorkloadLevel D) (steps : List (WorkloadLevel D))
      → D.to_int64 (D.mul (of_int64 0) (second D)) ≡ 0
      → eq step.level_start step.level_end ≡ true
      → lt (of_int64 0) step.level_end ≡ false
      → step.duration < 2 ^ 63
      → schedule D fuel (step ∷ steps) cnt 0 0 ≡ (replicate fuel 0, running)
  unfolding schedule
  schedule_idle zero cnt step steps z e h d = refl
  schedule_idle (suc fuel) cnt step steps z e h d =
      let ns : interval_ns D step cnt ≡ 0 = interval_ns_idle step cnt z e h in
      let next : u64 (0 + interval_ns D step cnt) ≡ 0 = omega (arith, ns) in
      let test : slt (u64 (0 + step.duration)) 0 ≡ false = ground arith in
      rw next (rw test (rw (schedule_idle fuel (cnt + 1) step steps z e h d) refl))
