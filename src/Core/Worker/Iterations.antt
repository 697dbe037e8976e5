-- ===== src/Core/Worker/Iterations.antt =====
-- One iteration of a worker: what it counts and what it pushes.
use encarno.Base.{
  ℕ, ◌+◌, ◌-◌, ◌^◌, ◌%◌, ◌<◌, ◌≡◌, refl, ap, ◌∙◌, Bool, true, false, none, some, arith, ok,
}
use encarno.Base.Bytes.{Bytes}
use encarno.Base.Map.{Map}
use encarno.Core.Input.{PayloadItem, replace_values, resolve_strings}
use encarno.Core.Output.{OutputItem, extract_values, assert}
use encarno.Core.Regexp.{Regexp}
use encarno.Core.Status.{
  Status, up, down, inc_waiting, dec_waiting, inc_working, dec_working, inc_sleeping, dec_sleeping,
  inc_busy, dec_busy, start_missed,
}
use encarno.Core.Worker.{Worker, Nib, stop, complete, sleep, do_busy, send_busy, send, iteration}

-- No counter is at an end of its range.
pub record IsSane (o : Status) : Type 0 where
  pub sleeping : o.sleeping + 1 < 2 ^ 63
  pub busy : o.busy + 1 < 2 ^ 63
  pub working : o.working + 1 < 2 ^ 63
  pub waiting : o.waiting + 1 < 2 ^ 63

-- What is the same before and after.
pub record Balanced (o t : Status) : Type 0 where
  pub sleeping : t.sleeping ≡ o.sleeping
  pub busy : t.busy ≡ o.busy
  pub working : t.working ≡ o.working
  pub waiting : t.waiting ≡ o.waiting

down-up : (n : ℕ) → n < 2 ^ 63 → down (up n) ≡ n
down-up n h = omega arith

dec_waiting-inc_waiting : (o : Status) → IsSane o → dec_waiting (inc_waiting o) ≡ o
unfolding dec_waiting inc_waiting
dec_waiting-inc_waiting o s =
    ap (λ (n : ℕ). record o { waiting = n }) (down-up o.waiting (omega (arith, s.waiting)))

sleep_lem : (o : Status) (now start : ℕ) → o.sleeping + 1 < 2 ^ 63 → sleep o now start ≡ ok o
unfolding sleep inc_sleeping dec_sleeping
sleep_lem o now start s =
    let e = ap (λ (n : ℕ). ok (record o { sleeping = n })) (down-up o.sleeping (omega arith)) in
    ground (arith, e)

dec_busy-inc_busy : (o : Status) → o.busy + 1 < 2 ^ 63 → dec_busy (inc_busy o) ≡ ok o
unfolding dec_busy inc_busy
dec_busy-inc_busy o s = let e = down-up o.busy (omega arith) in rw e (ground arith)

dec_working-inc_working :
    (o t : Status)
    → IsSane o
    → t.working ≡ up o.working
    → dec_working t ≡ ok (record t { working = o.working })
unfolding dec_working
dec_working-inc_working o t s h =
    let e : down t.working ≡ o.working = ap down h ∙ down-up o.working (omega (arith, s.working)) in
    rw e (ground (arith, s.working))

module _ (R : Regexp) where
  -- The result that a worker pushes.
  abbrev pub result_of : Worker → PayloadItem R.Re → OutputItem → OutputItem
  result_of w sent res =
      assert R sent.asserts (complete (record w { status = inc_busy w.status }) sent res)

  -- How much later than scheduled a result started.
  abbrev lateness : OutputItem → ℕ → ℕ
  lateness res expected_start = (res.start_time + (2 ^ 64 - expected_start % 2 ^ 64)) % 2 ^ 64

  -- The worker after an iteration with such a result.
  abbrev pub after_iteration : Worker → OutputItem → ℕ → Map Bytes → Worker
  after_iteration w out start values = record w {
    values = values;
    iteration_count = up w.iteration_count;
    status = start_missed w.status (lateness out start);
  }

module _ (R : Regexp) (nib : Nib R.Re) (rand : ℕ → ℕ) where
  -- The parts of an item's way that are not the worker's own go through.
  pub record Passes (known : Map Bytes) (cache : Map R.Re) (item : PayloadItem R.Re)
      (cache' : Map R.Re) (sent : PayloadItem R.Re) (res : OutputItem) (values : Map Bytes)
      : Type 0 where
    pub replaced : PayloadItem R.Re
    pub resolved : PayloadItem R.Re
    pub replaces : replace_values R known cache item ≡ ok (replaced, cache')
    pub resolves : resolve_strings replaced ≡ ok resolved
    pub punches : nib.punch resolved ≡ ok (sent, res)
    pub extracts : extract_values R rand res.resp_bytes sent.regex_out known ≡ ok values

  pub do_busy_lem :
      (w : Worker) (resolved sent : PayloadItem R.Re) (res : OutputItem) (values : Map Bytes)
      → w.status.busy + 1 < 2 ^ 63
      → nib.punch resolved ≡ ok (sent, res)
      → extract_values R rand res.resp_bytes sent.regex_out w.values ≡ ok values
      → do_busy R nib rand w resolved ≡ ok (record w { values = values }, result_of R w sent res)
  unfolding do_busy
  do_busy_lem w resolved sent res values s p x =
      rw p (rw (dec_busy-inc_busy w.status s) (unfold complete in rw x refl))

  send_busy_lem :
      (w : Worker) (replaced resolved sent : PayloadItem R.Re) (res : OutputItem)
      (values : Map Bytes) (start : ℕ)
      → w.status.busy + 1 < 2 ^ 63
      → resolve_strings replaced ≡ ok resolved
      → nib.punch resolved ≡ ok (sent, res)
      → extract_values R rand res.resp_bytes sent.regex_out w.values ≡ ok values
      → send_busy R nib rand w replaced start
        ≡ ok (
          record w {
            values = values;
            status = start_missed w.status (lateness R (result_of R w sent res) start);
          },
          some (result_of R w sent res),
        )
  unfolding send_busy
  send_busy_lem w replaced resolved sent res values start b r p x =
      rw r (rw (do_busy_lem w resolved sent res values b p x) refl)

  send_running :
      (w : Worker) (item : PayloadItem R.Re) (start : ℕ)
      → w.stopped ≡ false
      → send R nib rand w item start ≡ send_busy R nib rand w item start
  unfolding send
  send_running w item start h = rw h refl

  pub iteration_eq :
      (w : Worker) (cache : Map R.Re) (item : PayloadItem R.Re) (offset now : ℕ) (cache' : Map R.Re)
      (sent : PayloadItem R.Re) (res : OutputItem) (values : Map Bytes)
      → IsSane w.status
      → w.stopped ≡ false
      → Passes w.values cache item cache' sent res values
      → (let out = result_of R w sent res in
          iteration R nib rand w cache offset (some item) now false
          ≡ ok (false, after_iteration R w out (w.start_time + offset) values, cache', some out))
  unfolding iteration inc_working complete assert start_missed inc_busy
  iteration_eq w cache item offset now cache' sent res values s h x =
      let start : ℕ = w.start_time + offset in
      let awake : Worker = record w {
        status = inc_working w.status;
        iteration_count = up w.iteration_count;
      } in
      let out : OutputItem = result_of R awake sent res in
      let e =
        send_running awake x.replaced start h
        ∙ send_busy_lem awake x.replaced x.resolved sent res values start s.busy x.resolves
            x.punches x.extracts in
      let after : Status = start_missed (inc_working w.status) (lateness R out start) in
      rw (x.replaces) (
        rw (dec_waiting-inc_waiting w.status s) (
          rw (sleep_lem (inc_working w.status) now start s.sleeping) (
            rw e (
              rw
                (dec_working-inc_working w.status after s
                  (unfold start_missed in unfold inc_working in refl))
                refl))))

  -- The counters have room for one more. A worker that is not stopped, and whose item has variables
  -- that can be replaced, texts that can be looked up and values that can be extracted, pushes
  -- the item's result: what the nib makes of the item, with the worker's own data, and with the
  -- verdict of the item's assertions. All four counters of workers are back where they were,
  -- whether it has to sleep or not, one more request is counted, and the values are those extracted.
  pub iteration_lem :
      (w : Worker) (cache : Map R.Re) (item : PayloadItem R.Re) (offset now : ℕ) (cache' : Map R.Re)
      (sent : PayloadItem R.Re) (res : OutputItem) (values : Map Bytes)
      → IsSane w.status
      → w.stopped ≡ false
      → Passes w.values cache item cache' sent res values
      → (w' : Worker) × (iteration R nib rand w cache offset (some item) now false
          ≡ ok (false, w', cache', some (result_of R w sent res)))
        × Balanced w.status w'.status
        × (w'.status.cnt ≡ up w.status.cnt)
        × (w'.iteration_count ≡ up w.iteration_count)
        × (w'.values ≡ values)
  unfolding start_missed
  iteration_lem w cache item offset now cache' sent res values s h x = (
    after_iteration R w (result_of R w sent res) (w.start_time + offset) values,
    iteration_eq w cache item offset now cache' sent res values s h x,
    record { sleeping = refl; busy = refl; working = refl; waiting = refl },
    refl,
    refl,
    refl,
  )

  -- The channel of items is closed while a worker waits for its item: the worker is told to stop and
  -- pushes nothing, but stays counted as waiting. The other counters are as they were.
  pub iteration_closed :
      (w : Worker) (cache : Map R.Re) (offset now : ℕ) (stops : Bool)
      → IsSane w.status
      → (w' : Worker) × (iteration R nib rand w cache offset none now stops
          ≡ ok (true, w', cache, none))
        × (w'.status.waiting ≡ w.status.waiting + 1)
        × (w'.status.sleeping ≡ w.status.sleeping)
        × (w'.status.busy ≡ w.status.busy)
        × (w'.status.working ≡ w.status.working)
  unfolding iteration inc_waiting
  iteration_closed w cache offset now stops s =
      (_, refl, omega (arith, s.waiting), refl, refl, refl)

  -- A worker that is stopped while it waits for its time takes the item, and pushes nothing for it.
  -- The counters are back where they were, and no request is counted.
  pub iteration_stopped :
      (w : Worker) (cache : Map R.Re) (item replaced : PayloadItem R.Re) (offset now : ℕ)
      (cache' : Map R.Re)
      → IsSane w.status
      → replace_values R w.values cache item ≡ ok (replaced, cache')
      → (w' : Worker) × (iteration R nib rand w cache offset (some item) now true
          ≡ ok (false, w', cache', none))
        × (w'.status ≡ w.status)
        × (w'.iteration_count ≡ up w.iteration_count)
  unfolding iteration inc_working send
  iteration_stopped w cache item replaced offset now cache' s e =
      let awake : Worker = record w {
        status = inc_working w.status;
        iteration_count = up w.iteration_count;
      } in
      (
        record (stop awake) { status = w.status },
        rw e (
            rw (dec_waiting-inc_waiting w.status s) (
              rw (sleep_lem (inc_working w.status) now (w.start_time + offset) s.sleeping)
                (rw (dec_working-inc_working w.status (inc_working w.status) s refl) refl))),
        refl,
        refl,
      )
