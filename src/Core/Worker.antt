-- ===== src/Core/Worker.antt =====
-- pkg/core/worker.go: what one worker does with the items that it gets.
-- Times are nanoseconds since the epoch, offsets of the schedule nanoseconds. The clock, `rand.Intn`
-- and whether another goroutine stops the worker while it sleeps are arguments.
pub mod Iterations
pub mod Runs
pub mod Sharing
mod Tests
use encarno.Base.{
  ℕ, ◌+◌, ◌-◌, ◌*◌, ◌/◌, ◌^◌, ◌%◌, Bool, true, false, Option, none, some, List, [], ◌∷◌, ltb, ◌==◌,
  if◌then◌else◌, Result, ok, ◌>>=◌,
}
use encarno.Base.Bytes.{Bytes, equal}
use encarno.Base.Map.{Map}
use encarno.Core.Input.{PayloadItem, replace_values, resolve_strings}
use encarno.Core.Output.{OutputItem, extract_values, assert}
use encarno.Core.Regexp.{Regexp}
use encarno.Core.Status.{
  Status, up, inc_waiting, dec_waiting, inc_working, dec_working, inc_sleeping, dec_sleeping,
  inc_busy, dec_busy, start_missed,
}

pub record Worker : Type 0 where
  pub index : ℕ
  pub start_time : ℕ
  pub values : Map Bytes
  pub finished : Bool
  pub iteration_count : ℕ
  pub status : Status
  pub stopped : Bool

abbrev pub stop : Worker → Worker
stop w = record w { stopped = true }

-- `Nib.Punch`: it can change the item, and makes the result.
pub record Nib (Re : Type 0) : Type 0 where
  pub punch : PayloadItem Re → Result (PayloadItem Re × OutputItem)

-- What the worker knows of a result that comes from `Punch`.
unfoldable pub complete : {Re : Type 0} → Worker → PayloadItem Re → OutputItem → OutputItem
complete w item res = record res {
  start_ts = res.start_time / 10 ^ 9 % 2 ^ 32;
  worker = w.index % 2 ^ 32;
  req_bytes = item.payload;
  label = if equal res.label [] then item.label else res.label;
  label_idx = if res.label_idx == 0 then item.label_idx else res.label_idx;
  concurrency = w.status.busy % 2 ^ 32;
}

-- What waits for its time, counted as sleeping.
unfoldable pub sleep : Status → ℕ → ℕ → Result Status
unfolding inc_sleeping dec_sleeping
sleep o now expected_start =
    if ltb now expected_start then (do o' ← inc_sleeping o; ok (dec_sleeping o')) else ok o

module _ (R : Regexp) (nib : Nib R.Re) (rand : ℕ → ℕ) where
  -- `DoBusy`, with the result that it pushes into the output.
  unfoldable pub do_busy : Worker → PayloadItem R.Re → Result (Worker × OutputItem)
  do_busy w item = do
    let busy = record w { status = inc_busy w.status }
    (item', res) ← nib.punch item
    let res' = complete busy item' res
    o ← dec_busy busy.status
    values' ← extract_values R rand res'.resp_bytes item'.regex_out w.values
    ok (record w { status = o; values = values' }, assert R item'.asserts res')

  -- The body of the last `if` of `Iteration`.
  unfoldable pub send_busy : Worker → PayloadItem R.Re → ℕ → Result (Worker × Option OutputItem)
  send_busy w item expected_start = do
    item' ← resolve_strings item
    (w', res) ← do_busy w item'
    let late = (res.start_time + (2 ^ 64 - expected_start % 2 ^ 64)) % 2 ^ 64
    ok (record w' { status = start_missed w'.status late }, some res)

  -- A stopped worker sends nothing.
  unfoldable pub send : Worker → PayloadItem R.Re → ℕ → Result (Worker × Option OutputItem)
  send w item expected_start = if w.stopped then ok (w, none) else send_busy w item expected_start

  -- `Iteration` on what the two channels give: whether the worker should stop, and the result that
  -- it pushes. `none` is the item of a closed channel.
  unfoldable pub iteration :
      Worker
      → Map R.Re
      → ℕ
      → Option (PayloadItem R.Re)
      → ℕ
      → Bool
      → Result (Bool × Worker × Map R.Re × Option OutputItem)
  iteration w cache offset none now stops =
      ok (true, record w { status = inc_waiting w.status }, cache, none)
  iteration w cache offset (some item) now stops = do
    (item', cache') ← replace_values R w.values cache item
    let expected_start = w.start_time + offset
    o ← sleep (inc_working (dec_waiting (inc_waiting w.status))) now expected_start
    let awake = record w { status = o; iteration_count = up w.iteration_count }
    (w', res) ← send (if stops then stop awake else awake) item' expected_start
    o' ← dec_working w'.status
    ok (false, record w' { status = o' }, cache', res)

-- What the two channels give for one iteration, with what happens meanwhile. The nib is what the
-- network lets `Punch` do this time.
pub record Turn (R : Regexp) : Type 0 where
  pub nib : Nib R.Re
  pub offset : ℕ
  pub item : Option (PayloadItem R.Re)
  pub now : ℕ
  pub stops : Bool

module _ (R : Regexp) (rand : ℕ → ℕ) where
  -- `Run`, up to the iteration that tells the worker to stop, or until the abort is signalled, where
  -- the list of turns ends. With it the results that are pushed, in their order.
  unfoldable pub run :
      Worker → Map R.Re → List (Turn R) → Result (Worker × Map R.Re × List OutputItem)
  run w cache [] = ok (record w { finished = true }, cache, [])
  run w cache (t ∷ ts) =
      let go = (do
        (should_stop, w', cache', res) ←
            iteration R t.nib rand w cache t.offset t.item t.now t.stops
        (w'', cache'', rest) ←
            if should_stop then ok (record w' { finished = true }, cache', []) else run w' cache' ts
        ok (w'', cache'', elim res [ none ↦ rest | some r ↦ r ∷ rest ])) in
      if w.stopped then ok (record w { finished = true }, cache, []) else go
