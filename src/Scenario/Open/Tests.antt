-- ===== src/Scenario/Open/Tests.antt =====
-- Open workloads at concrete levels: one hundred requests a second for a second, and pauses.
use encarno.Base.{
  ℕ, ◌+◌, ◌*◌, ◌≤◌, ◌≡◌, refl, true, false, List, [], ◌∷◌, length, take, replicate, arith, ok,
}
use encarno.Base.Bytes.{codes}
use encarno.Base.Double.{unit, fixed}
use encarno.Base.Int.{pos}
use encarno.Core.Status.{new_status}
use encarno.Core.Workload.{WorkloadLevel, WorkerConf, spawn_worker, new_base_workload}
use encarno.Core.Workload.Staff.{IsNumbered, AllStopped}
use encarno.Scenario.Open.{
  closed, running, Moment, OpenWorkload, rate, interval, interval_ns, schedule, generate_schedule,
  new_open_workload, run, spawn_initial, spawn_times,
}
use encarno.Scenario.Open.Runs.{offsets, run_lem}
use encarno.Scenario.Open.Schedules.{IsAscending, AllPaced, generate_schedule_closed, schedule_idle}

abbrev steady : WorkloadLevel fixed
steady = record { level_start = 100 * unit; level_end = 100 * unit; duration = 1_000_000_000 }

steady-AllPaced : AllPaced fixed 10_000_000 10_000_000 (steady ∷ [])
unfolding rate interval interval_ns
steady-AllPaced = (
  record { at_least = λ cnt. omega arith; at_most = λ cnt. omega arith; moves = λ cnt. refl },
  tt,
)

generate_schedule_closed_example :
    ((generate_schedule fixed 101 (steady ∷ [])).1 ≡ closed)
    × IsAscending 0 (generate_schedule fixed 101 (steady ∷ [])).0
generate_schedule_closed_example =
    generate_schedule_closed fixed 101 (steady ∷ []) 10_000_000 10_000_000 steady-AllPaced
      (omega arith) (omega arith) (omega arith)

steady_starts :
    (generate_schedule fixed 3 (steady ∷ [])).0 ≡ 10_000_000 ∷ 20_000_000 ∷ 30_000_000 ∷ []
unfolding schedule interval_ns interval rate
steady_starts = refl

-- A pause of ten seconds in front of the load.
abbrev pause : WorkloadLevel fixed
pause = record { level_start = 0; level_end = 0; duration = 10_000_000_000 }

schedule_idle_example :
    schedule fixed 1000 (pause ∷ steady ∷ []) 0 0 0 ≡ (replicate 1000 0, running)
schedule_idle_example = schedule_idle fixed 1000 0 pause (steady ∷ []) refl refl refl (omega arith)

abbrev conf : WorkerConf fixed
conf = record {
  mode = codes "open";
  workload_schedule = steady ∷ [];
  starting_workers = pos 1;
  max_workers = pos 2;
  values = [];
}

abbrev workload : OpenWorkload fixed
workload = record {
  base = record {
    workers = [];
    start_time = 1000;
    own_input = false;
    scenario = steady ∷ [];
    cnt = 0;
    status = new_status;
    values = [];
  };
  min_workers = pos 1;
  max_workers = pos 2;
  sum_durations = 1_000_000_000;
  done = 0;
}

workload-conf :
    new_open_workload fixed conf (new_base_workload fixed false conf new_status 1000) ≡ workload
unfolding new_open_workload new_base_workload
workload-conf = refl

abbrev quiet : Moment
quiet = record { interrupted = false; now = 2000; reading = true; sleeping = 0; taken = true }

abbrev late : Moment
late = record { interrupted = false; now = 2000; reading = false; sleeping = 0; taken = true }

abbrev turns : List (ℕ × Moment)
turns = (10, quiet) ∷ (20, late) ∷ (30, late) ∷ (40, record quiet { interrupted = true }) ∷ []

run_lem_example :
    (t : OpenWorkload fixed) × (sent : List ℕ) × (run fixed workload turns ≡ ok (t, sent))
    × (sent ≡ take (length sent) (offsets turns))
    × (1 ≤ length t.base.workers)
    × IsNumbered 1 t.base.workers
    × AllStopped t.base.workers
    × (length t.base.workers ≤ 2)
    × (t.done ≡ workload.done + 1)
run_lem_example =
    run_lem fixed workload turns refl refl (omega arith) (refl, (refl, (refl, (refl, tt))))

-- With no maximum, the workers to start with are not heeded: one is started.
unlimited : ℕ
unfolding spawn_initial spawn_times
unlimited =
    length
      (spawn_initial fixed
        (record workload { min_workers = pos 50; max_workers = pos 0 })).base.workers

unlimited_starts : unlimited ≡ 1
unfolding unlimited spawn_initial spawn_times spawn_worker
unlimited_starts = refl
