-- ===== src/Scenario/Closed/Tests.antt =====
-- A closed workload that goes to one worker at once, and to three within two seconds.
use encarno.Base.{ℕ, ◌*◌, ◌≤◌, ◌≡◌, refl, true, false, some, List, [], ◌∷◌, length, arith}
use encarno.Base.Double.{unit, fixed, fixed-IsExact}
use encarno.Core.Status.{new_status}
use encarno.Core.Workload.Staff.{IsNumbered, AllStopped}
use encarno.Scenario.Closed.{
  Moment, ClosedWorkload, reach_level, progress, through_step, generate_schedule, run,
}
use encarno.Scenario.Closed.Levels.{Step, levels_of, generate_schedule_lem}
use encarno.Scenario.Closed.Runs.{run_bounded, run-generate_schedule}

abbrev steps : List Step
steps =
    record { from = 1; to = 1; duration = 5_000_000_000 }
    ∷ record { from = 1; to = 3; duration = 2_000_000_000 }
    ∷ []

generate_schedule_lem_example :
    (offsets : List ℕ) × (generate_schedule fixed 10
        (levels_of fixed fixed-IsExact steps)
        (0 * unit)
        0
      ≡ some offsets)
    × (length offsets ≡ 3)
generate_schedule_lem_example =
    generate_schedule_lem fixed fixed-IsExact 10 0 0 steps (omega arith) (omega arith)

abbrev calm : Moment
calm = record { now = 0; interrupted = false }

abbrev turns : List (ℕ × Moment)
turns = (0, calm) ∷ (6_000_000_000, calm) ∷ (7_000_000_000, calm) ∷ []

steps-turns :
    generate_schedule fixed 10 (levels_of fixed fixed-IsExact steps) (0 * unit) 0
    ≡ some (0 ∷ 6_000_000_000 ∷ 7_000_000_000 ∷ [])
unfolding generate_schedule reach_level progress through_step
steps-turns = refl

abbrev workload : ClosedWorkload fixed
workload = record {
  base = record {
    workers = [];
    start_time = 1000;
    own_input = false;
    scenario = levels_of fixed fixed-IsExact steps;
    cnt = 0;
    status = new_status;
    values = [];
  };
  done = 0;
}

run-generate_schedule_example :
    (length (run fixed workload turns).base.workers ≡ 3)
    × AllStopped (run fixed workload turns).base.workers
run-generate_schedule_example =
    run-generate_schedule fixed fixed-IsExact 10 workload steps turns refl refl (omega arith)
      (omega arith) steps-turns (refl, (refl, (refl, tt)))

-- An interrupt before the second worker.
abbrev interrupted_turns : List (ℕ × Moment)
interrupted_turns = (0, calm) ∷ (6_000_000_000, record calm { interrupted = true }) ∷ []

run_bounded_example :
    (length (run fixed workload interrupted_turns).base.workers ≤ 2)
    × IsNumbered 1 (run fixed workload interrupted_turns).base.workers
    × AllStopped (run fixed workload interrupted_turns).base.workers
    × ((run fixed workload interrupted_turns).done ≡ 1)
run_bounded_example = run_bounded fixed workload interrupted_turns refl refl
