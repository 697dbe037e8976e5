-- ===== src/Core/Status.antt =====
-- pkg/core/status.go: the counters that all workers share.
-- A counter is the bit pattern of an int64, to which an increment adds modulo 2^64.
pub mod Reports
mod Tests
use encarno.Base.{
  ◌/◌, u64, slt, ℕ, ◌+◌, ◌-◌, ◌^◌, ◌%◌, Bool, leb, if◌then◌else◌, Result, ok, panic,
  negative_counter,
}

pub record Status : Type 0 where
  pub sleeping : ℕ
  pub busy : ℕ
  pub working : ℕ
  pub waiting : ℕ
  pub missed : ℕ
  pub cnt : ℕ

abbrev pub new_status : Status
new_status = record { sleeping = 0; busy = 0; working = 0; waiting = 0; missed = 0; cnt = 0 }

-- `atomic.AddInt64` of 1 and of -1.
abbrev pub up : ℕ → ℕ
up n = (n + 1) % 2 ^ 64

abbrev pub down : ℕ → ℕ
down n = (n + (2 ^ 64 - 1)) % 2 ^ 64

abbrev pub is_negative : ℕ → Bool
is_negative n = leb (2 ^ 63) n

unfoldable pub inc_waiting : Status → Status
inc_waiting o = record o { waiting = up o.waiting }

unfoldable pub dec_waiting : Status → Status
dec_waiting o = record o { waiting = down o.waiting }

unfoldable pub inc_working : Status → Status
inc_working o = record o { working = up o.working }

unfoldable pub dec_working : Status → Result Status
dec_working o =
    if is_negative (down o.working)
    then panic negative_counter
    else ok (record o { working = down o.working })

unfoldable pub inc_sleeping : Status → Result Status
inc_sleeping o =
    if is_negative (up o.sleeping)
    then panic negative_counter
    else ok (record o { sleeping = up o.sleeping })

unfoldable pub dec_sleeping : Status → Status
dec_sleeping o = record o { sleeping = down o.sleeping }

unfoldable pub dec_busy : Status → Result Status
dec_busy o =
    if is_negative (down o.busy)
    then panic negative_counter
    else ok (record o { busy = down o.busy })

unfoldable pub inc_busy : Status → Status
inc_busy o = record o { busy = up o.busy }

-- `sub` is the bit pattern of the nanoseconds.
unfoldable pub start_missed : Status → ℕ → Status
start_missed o sub = record o { missed = (o.missed + sub) % 2 ^ 64; cnt = up o.cnt }

abbrev pub get_waiting : Status → ℕ
get_waiting o = o.waiting

abbrev pub get_working : Status → ℕ
get_working o = o.working

abbrev pub get_sleeping : Status → ℕ
get_sleeping o = o.sleeping

abbrev pub get_busy : Status → ℕ
get_busy o = o.busy

-- What `Start` takes for its report every second: the requests and how much later they started.
unfoldable pub take_counts : Status → Status × ℕ × ℕ
take_counts o = (record o { cnt = 0; missed = 0 }, o.cnt, o.missed)

-- A line of the log.
pub record Report : Type 0 where
  pub waiting : ℕ
  pub working : ℕ
  pub sleeping : ℕ
  pub busy : ℕ
  pub lag : ℕ
  pub reqs : ℕ

-- The quotient of an int64 by one above 0, which is cut towards zero.
abbrev pub quotient : ℕ → ℕ → ℕ
quotient a b = if is_negative a then u64 (2 ^ 64 - (2 ^ 64 - a) / b) else a / b

-- One round of the goroutine of `Start`. The four counters are read one after the other and without
-- the lock, each from what the workers have made of the status by then. `round` is `Round` of a
-- duration to 10 milliseconds.
module _ (round : ℕ → ℕ) where
  unfoldable pub report : Status → Status → Status → Status → Status → Status × Report
  unfolding take_counts
  report at_working at_sleeping at_busy at_waiting o =
      let (o', cnt, missed) = take_counts o in
      (
        o',
        record {
          waiting = get_waiting at_waiting;
          working = get_working at_working;
          sleeping = get_sleeping at_sleeping;
          busy = get_busy at_busy;
          lag = if slt 0 cnt then round (quotient missed cnt) else 0;
          reqs = cnt;
        },
      )
