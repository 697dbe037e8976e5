-- ===== src/Core/Worker/Sharing.antt =====
-- pkg/core/worker.go and pkg/core/status.go: many workers over the shared counters, and the
-- goroutine of the reports. A step is one access of one goroutine to the counters.
pub mod Counters
pub mod Single
use encarno.Base.{
  ℕ, ◌+◌, ◌^◌, ◌<◌, ◌≤◌, ◌≡◌, true, false, List, [], ◌∷◌, ◌++◌, length, arith, refl, ap, ◌∙◌,
  length-append,
}
use encarno.Core.Status.{
  Status, new_status, up, down, is_negative, inc_waiting, dec_waiting, inc_working, dec_sleeping,
  inc_busy, start_missed, take_counts,
}

-- Where a worker is in `Run`. A counter that has changed is checked later than it changes.
pub data Phase : Type 0 where
  between : Phase
  awaiting : Phase
  gone : Phase
  taken : Phase
  at_work : Phase
  dozing : Phase
  asleep : Phase
  awake : Phase
  punching : Phase
  punched : Phase
  answered : Phase
  counted : Phase
  leaving : Phase
  ended : Phase
  crashed : Phase

-- What a worker does to the counters, from one phase to the next.
pub data Move (o : Status) : Phase → Phase → Status → Type 0 where
  starts_waiting : Move o between awaiting (inc_waiting o)
  input_closed : Move o awaiting gone o
  takes : Move o awaiting taken (dec_waiting o)
  works : Move o taken at_work (inc_working o)
  on_time : Move o at_work awake o
  dozes : Move o at_work dozing (record o { sleeping = up o.sleeping })
  sleeps : is_negative o.sleeping ≡ false → Move o dozing asleep o
  sleep_panics : is_negative o.sleeping ≡ true → Move o dozing crashed o
  wakes : Move o asleep awake (dec_sleeping o)
  is_stopped : Move o awake counted o
  punches : Move o awake punching (inc_busy o)
  has_punched : Move o punching punched (record o { busy = down o.busy })
  answers : is_negative o.busy ≡ false → Move o punched answered o
  busy_panics : is_negative o.busy ≡ true → Move o punched crashed o
  counts : (late : ℕ) → Move o answered counted (start_missed o late)
  leaves : Move o counted leaving (record o { working = down o.working })
  goes_on : is_negative o.working ≡ false → Move o leaving between o
  work_panics : is_negative o.working ≡ true → Move o leaving crashed o
  ends : Move o between ended o

-- The counters, where each worker is, how many requests were counted as started, and how many of
-- them the reports have told.
pub record System : Type 0 where
  pub status : Status
  pub phases : List Phase
  pub requests : ℕ
  pub reported : ℕ

-- Which phases each number is about.
abbrev pub in_waiting : Phase → ℕ
in_waiting awaiting = 1
in_waiting p = 0

abbrev pub in_gone : Phase → ℕ
in_gone gone = 1
in_gone p = 0

abbrev pub in_working : Phase → ℕ
in_working at_work = 1
in_working dozing = 1
in_working asleep = 1
in_working awake = 1
in_working punching = 1
in_working punched = 1
in_working answered = 1
in_working counted = 1
in_working p = 0

abbrev pub in_sleeping : Phase → ℕ
in_sleeping dozing = 1
in_sleeping asleep = 1
in_sleeping p = 0

abbrev pub in_busy : Phase → ℕ
in_busy punching = 1
in_busy p = 0

abbrev pub in_answered : Phase → ℕ
in_answered answered = 1
in_answered p = 0

abbrev pub in_crashed : Phase → ℕ
in_crashed crashed = 1
in_crashed p = 0

-- How many workers are in such phases.
abbrev pub total : (Phase → ℕ) → List Phase → ℕ
total f [] = 0
total f (p ∷ ps) = f p + total f ps

-- What can happen: a worker makes a move, one more worker is spawned, or a report is made.
pub data Step (s : System) : System → Type 0 where
  moves :
      (before after : List Phase) (p q : Phase) (o : Status)
      → s.phases ≡ before ++ p ∷ after
      → Move s.status p q o
      → Step s (record s {
        status = o;
        phases = before ++ q ∷ after;
        requests = s.requests + in_answered p;
      })
  spawns : Step s (record s { phases = s.phases ++ between ∷ [] })
  reports : Step s (record s {
    status = (take_counts s.status).0;
    reported = s.reported + (take_counts s.status).1;
  })

pub data Reach (s : System) : System → Type 0 where
  stay : Reach s s
  then_step : {t u : System} → Reach s t → Step t u → Reach s u

abbrev pub at_first : System
at_first = record { status = new_status; phases = []; requests = 0; reported = 0 }

-- Each counter is the number of workers that it should count.
pub record Inv (s : System) : Type 0 where
  pub waiting : s.status.waiting ≡ total in_waiting s.phases + total in_gone s.phases
  pub working : s.status.working ≡ total in_working s.phases
  pub sleeping : s.status.sleeping ≡ total in_sleeping s.phases
  pub busy : s.status.busy ≡ total in_busy s.phases
  pub told : s.reported + s.status.cnt ≡ s.requests
  pub no_panic : total in_crashed s.phases ≡ 0
