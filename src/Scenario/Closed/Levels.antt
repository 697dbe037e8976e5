-- ===== src/Scenario/Closed/Levels.antt =====
-- The number of workers that a closed schedule starts.
use encarno.Base.{
  ℕ, zero, suc, ◌+◌, ◌-◌, ◌^◌, ◌≤◌, ◌<◌, ◌≡◌, refl, ◌∙◌, true, false, inl, inr, some, List, [], ◌∷◌,
  ◌++◌, ltb, length, length-append, replicate, length-replicate, arith, u64, Bool-cases,
}
use encarno.Base.Double.{Double, IsExact}
use encarno.Core.Workload.{WorkloadLevel}
use encarno.Scenario.Closed.{reach_level, progress, through_step, generate_schedule}

-- A step of whole levels: where it starts, where it ends, and its duration.
pub record Step : Type 0 where
  pub from : ℕ
  pub to : ℕ
  pub duration : ℕ

-- The levels never fall, neither within a step nor between steps.
abbrev pub IsRising : ℕ → List Step → Type 0
IsRising level [] = level + 1 < 2 ^ 53
IsRising level (s ∷ steps) = (level ≤ s.from) × (s.from ≤ s.to) × IsRising s.to steps

abbrev pub last_level : ℕ → List Step → ℕ
last_level level [] = level
last_level level (s ∷ steps) = last_level s.to steps

rising_small :
    (level : ℕ) (steps : List Step)
    → IsRising level steps
    → level ≤ last_level level steps × (last_level level steps + 1 < 2 ^ 53)
rising_small level [] h = (omega arith, h)
rising_small level (s ∷ steps) (h, k, r) =
    let (le, small) = rising_small s.to steps r in (omega arith, small)

module _ (D : Double) (exact : IsExact D) where
  open D use {W, of_int64}

  abbrev pub level_of : Step → WorkloadLevel D
  level_of s = record {
    level_start = of_int64 s.from;
    level_end = of_int64 s.to;
    duration = s.duration;
  }

  abbrev pub levels_of : List Step → List (WorkloadLevel D)
  levels_of [] = []
  levels_of (s ∷ steps) = level_of s ∷ levels_of steps

  reach_level_lem :
      (fuel i n level offset : ℕ)
      → i + n ≡ level
      → n < fuel
      → level < 2 ^ 53
      → reach_level D fuel (of_int64 i) (of_int64 level) offset ≡ some (replicate n offset)
  unfolding reach_level
  reach_level_lem zero i n level offset e h small = absurd (omega arith)
  reach_level_lem (suc fuel) i zero level offset e h small =
      let test : D.lt (of_int64 i) (of_int64 level) ≡ false =
        exact.lt_whole i level (omega arith) small ∙ (ground arith) in
      rw (test, reach_level) refl
  reach_level_lem (suc fuel) i (suc n) level offset e h small =
      let test : D.lt (of_int64 i) (of_int64 level) ≡ true =
        exact.lt_whole i level (omega arith) small ∙ (ground arith) in
      rw (test, reach_level)
        (rw (exact.add_whole i 1 (omega arith))
          (rw (reach_level_lem fuel (i + 1) n level offset (omega arith) (omega arith) small) refl))

  progress_lem :
      (fuel i n count : ℕ) (dur_step : W) (offset : ℕ)
      → i + n ≡ count + 1
      → n < fuel
      → count + 1 < 2 ^ 53
      → (offsets : List ℕ) × (progress D fuel (of_int64 i) (of_int64 count) dur_step offset
          ≡ some offsets)
        × (length offsets ≡ n)
  unfolding progress
  progress_lem zero i n count dur_step offset e h small = absurd (omega arith)
  progress_lem (suc fuel) i zero count dur_step offset e h small =
      let test : D.le (of_int64 i) (of_int64 count) ≡ false =
        exact.le_whole i count (omega arith) (omega arith) ∙ (ground arith) in
      ([], rw (test, progress) refl, refl)
  progress_lem (suc fuel) i (suc n) count dur_step offset e h small =
      let test : D.le (of_int64 i) (of_int64 count) ≡ true =
        exact.le_whole i count (omega arith) (omega arith) ∙ (ground arith) in
      let (os, r, l) =
        progress_lem fuel (i + 1) n count dur_step offset (omega arith) (omega arith) small in
      (
        u64 (offset + D.to_int64 (D.mul dur_step (of_int64 i))) ∷ os,
        rw (test, progress) (rw (exact.add_whole i 1 (omega arith)) (rw r refl)),
        omega (arith, l),
      )

  through_step_lem :
      (fuel offset : ℕ) (s : Step)
      → s.from ≤ s.to
      → s.to < fuel
      → s.to + 1 < 2 ^ 53
      → (offsets : List ℕ) × (through_step D fuel (level_of s) offset ≡ some offsets)
        × (length offsets ≡ s.to - s.from)
  unfolding through_step
  through_step_lem fuel offset s h f small =
      let lt_levels : D.lt (of_int64 s.from) (of_int64 s.to) ≡ ltb s.from s.to =
        exact.lt_whole s.from s.to (omega arith) (omega arith) in
      elim (Bool-cases (ltb s.from s.to)) [
        | inr e ↦ ([], rw (lt_levels ∙ e) refl, ground arith)
        | inl e ↦
            let n = s.to - s.from in
            let dur_step = D.div (of_int64 s.duration) (of_int64 n) in
            let (os, r, l) =
              progress_lem fuel 1 n n dur_step offset (omega arith) (ground arith) (ground arith) in
            (os, rw (lt_levels ∙ e) (rw (exact.sub_whole s.to s.from (omega arith) h) r), l)
      ]

  -- For whole levels that never fall, on floats that are exact for whole numbers, each loop of the
  -- schedule ends within as many rounds as the highest level, and the schedule starts as many workers
  -- as the last level is above the first, no more and no fewer.
  pub generate_schedule_lem :
      (fuel level offset : ℕ) (steps : List Step)
      → IsRising level steps
      → last_level level steps < fuel
      → (offsets : List ℕ) × (generate_schedule D fuel (levels_of steps) (of_int64 level) offset
          ≡ some offsets)
        × (length offsets ≡ last_level level steps - level)
  unfolding generate_schedule
  generate_schedule_lem fuel level offset [] h f = ([], refl, omega arith)
  generate_schedule_lem fuel level offset (s ∷ steps) (h, k, r) f =
      let (le, small) = rising_small s.to steps r in
      let reach =
        reach_level_lem fuel level (s.from - level) s.from offset (omega arith) (omega arith)
          (omega arith) in
      let (os, through, l) = through_step_lem fuel offset s k (omega arith) (omega arith) in
      let (rest, later, l') =
        generate_schedule_lem fuel s.to (u64 (offset + s.duration)) steps r f in
      (
        (replicate (s.from - level) offset ++ os) ++ rest,
        rw reach (rw through (rw later refl)),
        omega (
          arith,
          length-append (replicate (s.from - level) offset ++ os) rest,
          length-append (replicate (s.from - level) offset) os,
          length-replicate (s.from - level) offset,
          l,
          l',
        ),
      )
