-- ===== src/Core/Workload.antt =====
-- pkg/core/workload.go: what the open and the closed scenario share.
-- The scheduling of goroutines is left to the scenarios: `go worker.Run()` only adds the worker here.
pub mod Staff
use encarno.Base.{ℕ, ◌+◌, Bool, false, List, [], ◌∷◌, ◌++◌, map}
use encarno.Base.Bytes.{Bytes}
use encarno.Base.Double.{Double}
use encarno.Base.Int.{ℤ}
use encarno.Base.Map.{Map}
use encarno.Core.Status.{Status}
use encarno.Core.Worker.{Worker, stop}

module _ (D : Double) where
  -- Durations are nanoseconds.
  pub record WorkloadLevel : Type 0 where
    pub level_start : D.W
    pub level_end : D.W
    pub duration : ℕ

  pub record WorkerConf : Type 0 where
    pub mode : Bytes
    pub workload_schedule : List WorkloadLevel
    pub starting_workers : ℤ
    pub max_workers : ℤ
    pub values : Map Bytes

  -- `own_input` tells that each worker opens the input for itself.
  pub record BaseWorkload : Type 0 where
    pub workers : List Worker
    pub start_time : ℕ
    pub own_input : Bool
    pub scenario : List WorkloadLevel
    pub cnt : ℕ
    pub status : Status
    pub values : Map Bytes

  -- `NewBasicWorker`: a copy of the values goes to each worker.
  unfoldable pub new_basic_worker : ℕ → BaseWorkload → Worker
  new_basic_worker index wl = record {
    index = index;
    start_time = wl.start_time;
    values = wl.values;
    finished = false;
    iteration_count = 0;
    status = wl.status;
    stopped = false;
  }

  unfoldable pub spawn_worker : BaseWorkload → BaseWorkload
  unfolding new_basic_worker
  spawn_worker s =
      let s' = record s { cnt = s.cnt + 1 } in
      record s' { workers = s.workers ++ new_basic_worker s'.cnt s' ∷ [] }

  unfoldable pub stop_workers : BaseWorkload → BaseWorkload
  stop_workers s = record s { workers = map stop s.workers }

  unfoldable pub new_base_workload : Bool → WorkerConf → Status → ℕ → BaseWorkload
  new_base_workload enable_regexes wconf status now = record {
    workers = [];
    start_time = now;
    own_input = enable_regexes;
    scenario = wconf.workload_schedule;
    cnt = 0;
    status = status;
    values = wconf.values;
  }
