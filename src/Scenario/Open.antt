-- ===== src/Scenario/Open.antt =====
-- pkg/scenario/open.go: requests at given times, with as many workers as it takes.
-- Offsets are the bit patterns of int64 nanoseconds; durations of levels are not negative.
pub mod Schedules
pub mod Runs
mod Tests
use encarno.Base.{
  ℕ, zero, suc, ◌+◌, ◌/◌, Bool, true, false, ◌&&◌, ◌||◌, not, List, [], ◌∷◌, ltb, leb, ◌==◌,
  if◌then◌else◌, length, u64, slt, Result, ok, panic, blocked, schedule_order, ◌>>=◌,
}
use encarno.Base.Double.{Double}
use encarno.Base.Int.{ℤ, pos, negsuc}
use encarno.Core.Status.{is_negative}
use encarno.Core.Workload.{WorkloadLevel, WorkerConf, BaseWorkload, spawn_worker, stop_workers}

-- How the channel of a schedule ends: it is closed, its goroutine panics, or it goes on.
pub data End : Type 0 where
  closed : End
  stuck : End
  running : End

-- `math.Min` of two ints, and `math.Max` of 1 and an int, which floats hold exactly up to 2^53.
abbrev pub min_int : ℤ → ℤ → ℤ
min_int (pos a) (pos b) = if leb a b then pos a else pos b
min_int (pos a) (negsuc b) = negsuc b
min_int (negsuc a) (pos b) = negsuc a
min_int (negsuc a) (negsuc b) = if leb a b then negsuc b else negsuc a

abbrev pub at_least_one : ℤ → ℕ
at_least_one (pos n) = if leb n 1 then 1 else n
at_least_one (negsuc n) = 1

-- `s.MaxWorkers <= 0 || workerCnt < s.MaxWorkers`
abbrev pub not_maxed : ℤ → ℕ → Bool
not_maxed (pos n) cnt = n == 0 || ltb cnt n
not_maxed (negsuc n) cnt = true

-- What `Run` finds when an offset of the schedule arrives: whether it has been interrupted, the time,
-- whether a worker is reading the channel, the counter of those sleeping, and whether a worker reads the
-- channel at last, for which `Run` waits if none does yet.
pub record Moment : Type 0 where
  pub interrupted : Bool
  pub now : ℕ
  pub reading : Bool
  pub sleeping : ℕ
  pub taken : Bool

module _ (D : Double) where
  open D use {W, of_int64, to_int64, sub, mul, div, sqrt, eq, lt}

  abbrev pub second : W
  second = of_int64 1_000_000_000

  unfoldable pub rate : WorkloadLevel D → ℕ → W
  rate step cnt =
      let dur_sec = div (of_int64 step.duration) second in
      let k = div (sub step.level_end step.level_start) dur_sec in
      if eq step.level_start step.level_end
      then step.level_end
      else mul k (sqrt (div (mul (of_int64 2) (of_int64 cnt)) k))

  unfoldable pub interval : WorkloadLevel D → ℕ → W
  interval step cnt =
      if lt (of_int64 0) (rate step cnt) then div (of_int64 1) (rate step cnt) else of_int64 0

  -- What is added to the offset.
  unfoldable pub interval_ns : WorkloadLevel D → ℕ → ℕ
  interval_ns step cnt = to_int64 (mul (interval step cnt) second)

  -- The goroutine of `GenerateSchedule`: the offsets of as many rounds as there is fuel for.
  unfoldable pub schedule : ℕ → List (WorkloadLevel D) → ℕ → ℕ → ℕ → List ℕ × End
  schedule fuel [] cnt accum finished_steps = ([], closed)
  schedule zero (step ∷ steps) cnt accum finished_steps = ([], running)
  schedule (suc fuel) (step ∷ steps) cnt accum finished_steps =
      let accum' = u64 (accum + interval_ns step cnt) in
      let next_step = schedule fuel steps (cnt + 1) accum' accum' in
      let same_step = schedule fuel (step ∷ steps) (cnt + 1) accum' finished_steps in
      let rest =
        if slt (u64 (finished_steps + step.duration)) accum' then next_step else same_step in
      if not (accum == 0) && eq (interval step cnt) (of_int64 0)
      then ([], stuck)
      else (accum' ∷ rest.0, rest.1)

  abbrev pub generate_schedule : ℕ → List (WorkloadLevel D) → List ℕ × End
  generate_schedule fuel scenario = schedule fuel scenario 0 0 0

  -- `done` counts the signals in the channel of that name.
  pub record OpenWorkload : Type 0 where
    pub base : BaseWorkload D
    pub min_workers : ℤ
    pub max_workers : ℤ
    pub sum_durations : ℕ
    pub done : ℕ

  abbrev pub sum_of : ℕ → List (WorkloadLevel D) → ℕ
  sum_of sum [] = sum
  sum_of sum (step ∷ steps) = sum_of (u64 (sum + step.duration)) steps

  unfoldable pub new_open_workload : WorkerConf D → BaseWorkload D → OpenWorkload
  new_open_workload workers base = record {
    base = base;
    min_workers = workers.starting_workers;
    max_workers = workers.max_workers;
    sum_durations = sum_of 0 workers.workload_schedule;
    done = 0;
  }

  unfoldable pub spawn_times : ℕ → BaseWorkload D → BaseWorkload D
  spawn_times zero base = base
  spawn_times (suc n) base = spawn_times n (spawn_worker D base)

  unfoldable pub spawn_initial : OpenWorkload → OpenWorkload
  spawn_initial s = record s {
    base = spawn_times (at_least_one (min_int s.max_workers s.min_workers)) s.base;
  }

  -- The `default` case: nobody is reading, and one more worker may help.
  unfoldable pub spawn_if_needed : OpenWorkload → Moment → OpenWorkload
  spawn_if_needed s m =
      if not m.reading
        && (not_maxed s.max_workers (length s.base.workers)
            && (is_negative m.sleeping || m.sleeping == 0))
      then record s { base = spawn_worker D s.base }
      else s

  -- The loop of `Run` over the offsets of the schedule, with the offsets that it sends to workers. If
  -- nobody ever reads the channel, `Run` hangs in the send.
  unfoldable pub run_loop :
      OpenWorkload → ℕ → ℕ → List (ℕ × Moment) → Result (OpenWorkload × List ℕ)
  run_loop s stop_cutoff last [] = ok (s, [])
  run_loop s stop_cutoff last ((offset, m) ∷ turns) =
      let rest = run_loop (spawn_if_needed s m) stop_cutoff offset turns in
      if m.interrupted
      then ok (s, [])
      else if slt offset last
      then panic schedule_order
      else if ltb stop_cutoff m.now
      then ok (s, [])
      else if not m.reading && not m.taken
      then panic blocked
      else rest >>= λ r. ok (r.0, offset ∷ r.1)

  unfoldable pub run : OpenWorkload → List (ℕ × Moment) → Result (OpenWorkload × List ℕ)
  run s turns = do
    let stop_cutoff = s.base.start_time + (s.sum_durations + s.sum_durations / 10)
    (s', sent) ← run_loop (spawn_initial s) stop_cutoff 0 turns
    ok (record s' { base = stop_workers D s'.base; done = s'.done + 1 }, sent)
