-- ===== src/Scenario/Closed.antt =====
-- pkg/scenario/closed.go: a number of workers that grows with time.
-- Durations and offsets are not negative.
pub mod Levels
pub mod Runs
mod Tests
use encarno.Base.{
  ℕ, zero, suc, ◌+◌, ◌*◌, Bool, true, false, ◌&&◌, Option, none, some, List, [], ◌∷◌, ◌++◌, ltb,
  if◌then◌else◌, u64,
}
use encarno.Base.Double.{Double}
use encarno.Core.Workload.{WorkloadLevel, BaseWorkload, spawn_worker, stop_workers}

-- What `Run` finds at an offset, or at the end: the time, and whether the interrupt comes before the
-- timer when it has to sleep.
pub record Moment : Type 0 where
  pub now : ℕ
  pub interrupted : Bool

-- `-1` until the first offset sets it.
abbrev pub initial_or : Option ℕ → ℕ → ℕ
initial_or none offset = offset
initial_or (some sub_initial) offset = sub_initial

module _ (D : Double) where
  open D use {W, of_int64, to_int64, add, sub, mul, div, lt, le}

  -- `for i := curLevel; i < step.LevelStart; i++`: a worker for each round, at the offset of the
  -- step. `none` is a loop that has not ended within the fuel.
  unfoldable pub reach_level : ℕ → W → W → ℕ → Option (List ℕ)
  reach_level zero i level_start cur_offset = none
  reach_level (suc fuel) i level_start cur_offset = elim (lt i level_start) [
    | false ↦ some []
    | true ↦ elim (reach_level fuel (add i (of_int64 1)) level_start cur_offset) [
      | none ↦ none
      | some offsets ↦ some (cur_offset ∷ offsets)
    ]
  ]

  -- `for i := 1.0; i <= (step.LevelEnd - step.LevelStart); i++`
  unfoldable pub progress : ℕ → W → W → W → ℕ → Option (List ℕ)
  progress zero i count dur_step cur_offset = none
  progress (suc fuel) i count dur_step cur_offset = elim (le i count) [
    | false ↦ some []
    | true ↦ elim (progress fuel (add i (of_int64 1)) count dur_step cur_offset) [
      | none ↦ none
      | some offsets ↦ some (u64 (cur_offset + to_int64 (mul dur_step i)) ∷ offsets)
    ]
  ]

  -- The middle of the loop over the steps: levels that fall give no offsets.
  unfoldable pub through_step : ℕ → WorkloadLevel D → ℕ → Option (List ℕ)
  through_step fuel step cur_offset =
      let count = sub step.level_end step.level_start in
      let dur_step = div (of_int64 step.duration) count in
      if lt step.level_start step.level_end
      then progress fuel (of_int64 1) count dur_step cur_offset
      else some []

  abbrev both : Option (List ℕ) → Option (List ℕ) → Option (List ℕ)
  both none ys = none
  both (some xs) none = none
  both (some xs) (some ys) = some (xs ++ ys)

  -- The goroutine of `GenerateSchedule`.
  unfoldable pub generate_schedule : ℕ → List (WorkloadLevel D) → W → ℕ → Option (List ℕ)
  generate_schedule fuel [] cur_level cur_offset = some []
  generate_schedule fuel (step ∷ steps) cur_level cur_offset =
      both
        (both (reach_level fuel cur_level step.level_start cur_offset)
          (through_step fuel step cur_offset))
        (generate_schedule fuel steps step.level_end (u64 (cur_offset + step.duration)))

  -- `done` counts the signals in the channel of that name.
  pub record ClosedWorkload : Type 0 where
    pub base : BaseWorkload D
    pub done : ℕ

  abbrev pub new_closed_workload : BaseWorkload D → ClosedWorkload
  new_closed_workload base = record { base = base; done = 0 }

  -- The time of an offset is still to come. It is `start + (offset - initial) - now` that is above
  -- zero.
  abbrev pub is_early : BaseWorkload D → ℕ → ℕ → Moment → Bool
  is_early s initial offset m = ltb (m.now + initial) (s.start_time + offset)

  -- The loop of `Run` over the offsets, and whether it was interrupted.
  unfoldable pub run_loop : BaseWorkload D → Option ℕ → List (ℕ × Moment) → BaseWorkload D × Bool
  run_loop s sub_initial [] = (s, false)
  run_loop s sub_initial ((offset, m) ∷ turns) =
      let initial = initial_or sub_initial offset in
      let rest = run_loop (spawn_worker D s) (some initial) turns in
      if is_early s initial offset m && m.interrupted then (s, true) else rest

  -- `Run`. What it finds when it waits for the end only makes it wait.
  unfoldable pub run : ClosedWorkload → List (ℕ × Moment) → ClosedWorkload
  run s turns =
      let (base, got_signal) = run_loop s.base none turns in
      record s { base = stop_workers D base; done = s.done + 1 }
