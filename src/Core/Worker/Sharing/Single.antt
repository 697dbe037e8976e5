-- ===== src/Core/Worker/Sharing/Single.antt =====
-- One iteration of `Worker.Iteration` as moves of the worker, one after the other.
use encarno.Base.{
  ℕ, ◌+◌, ◌-◌, ◌^◌, ◌%◌, ◌≡◌, refl, ap, ◌∙◌, subst, Bool, true, false, Option, none, some, arith,
  Bool-cases, inl, inr, ltb, if◌then◌else◌, Panic, ok, panic, bind-eq-ok, negative_counter,
}
use encarno.Base.Map.{Map}
use encarno.Core.Input.{PayloadItem, replace_values, resolve_strings}
use encarno.Core.Output.{OutputItem, extract_values}
use encarno.Core.Regexp.{Regexp}
use encarno.Core.Status.{
  Status, up, down, is_negative, inc_waiting, dec_waiting, inc_working, dec_working, inc_sleeping,
  dec_sleeping, inc_busy, dec_busy, start_missed,
}
use encarno.Core.Worker.{Worker, Nib, stop, sleep, do_busy, send_busy, send, iteration}
use encarno.Core.Worker.Sharing.{
  Phase, between, gone, at_work, awake, punching, answered, counted, Move, starts_waiting,
  input_closed, takes, works, on_time, dozes, sleeps, wakes, is_stopped, punches, has_punched,
  answers, counts, leaves, goes_on,
}

-- Moves in a row, with nothing else in between.
pub data Moves (o : Status) (p : Phase) : Phase → Status → Type 0 where
  no_move : Moves o p p o
  and_then : {q r : Phase} {o' o'' : Status} → Moves o p q o' → Move o' q r o'' → Moves o p r o''

Moves-trans :
    {o o' : Status} {p q r : Phase} {o'' : Status}
    → Moves o p q o'
    → Moves o' q r o''
    → Moves o p r o''
Moves-trans m no_move = m
Moves-trans m (and_then n x) = and_then (Moves-trans m n) x

if_Ok :
    {A : Type 0} (b : Bool) (why : Panic) (x y : A)
    → (if b then panic why else ok x) ≡ ok y
    → (b ≡ false) × (x ≡ y)
if_Ok true why x y e = ground (arith, e)
if_Ok false why x y e = (refl, cc)

ok-inj : {A : Type 0} {x y : A} → ok x ≡ ok y → x ≡ y
ok-inj e = cc e

sleep-Moves : (o o' : Status) (now start : ℕ) → sleep o now start ≡ ok o' → Moves o at_work awake o'
unfolding sleep inc_sleeping
sleep-Moves o o' now start e = elim (Bool-cases (ltb now start)) [
  | inl late ↦
      let (o1, first, second) = bind-eq-ok (inc_sleeping o) _ (rw late at e) in
      let added = record o { sleeping = up o.sleeping } in
      let (fine, same) = if_Ok (is_negative (up o.sleeping)) negative_counter added o1 first in
      let same' : dec_sleeping added ≡ o' = ap dec_sleeping same ∙ cc second in
      subst (Moves o at_work awake) same'
        (and_then (and_then (and_then no_move dozes) (sleeps fine)) wakes)
  | inr early ↦
      let same : o ≡ o' = cc (rw early at e) in
      subst (Moves o at_work awake) same (and_then no_move on_time)
]

dec_working-Moves : (o o' : Status) → dec_working o ≡ ok o' → Moves o counted between o'
unfolding dec_working
dec_working-Moves o o' e =
    let after = record o { working = down o.working } in
    let (fine, same) = if_Ok (is_negative (down o.working)) negative_counter after o' e in
    subst (Moves o counted between) same (and_then (and_then no_move leaves) (goes_on fine))

dec_busy-Moves : (o o' : Status) → dec_busy o ≡ ok o' → Moves o punching answered o'
unfolding dec_busy
dec_busy-Moves o o' e =
    let after = record o { busy = down o.busy } in
    let (fine, same) = if_Ok (is_negative (down o.busy)) negative_counter after o' e in
    subst (Moves o punching answered) same (and_then (and_then no_move has_punched) (answers fine))

same_status : (stops : Bool) (w : Worker) → (if stops then stop w else w).status ≡ w.status
same_status true w = refl
same_status false w = refl

module _ (R : Regexp) (nib : Nib R.Re) (rand : ℕ → ℕ) where
  do_busy-Moves :
      (w w' : Worker) (item : PayloadItem R.Re) (res : OutputItem)
      → do_busy R nib rand w item ≡ ok (w', res)
      → Moves w.status awake answered w'.status
  unfolding do_busy
  do_busy-Moves w w' item res e =
      let ((item', res'), hit, rest) = bind-eq-ok (nib.punch item) _ e in
      let (o, freed, rest') = bind-eq-ok (dec_busy (inc_busy w.status)) _ rest in
      let (values, extracted, last) = bind-eq-ok (extract_values R rand _ _ _) _ rest' in
      let same : o ≡ w'.status = ap (λ (p : Worker × OutputItem). p.0.status) (ok-inj last) in
      subst (Moves w.status awake answered) same
        (Moves-trans (and_then no_move punches) (dec_busy-Moves (inc_busy w.status) o freed))

  send_busy-Moves :
      (w w' : Worker) (item : PayloadItem R.Re) (start : ℕ) (res : Option OutputItem)
      → send_busy R nib rand w item start ≡ ok (w', res)
      → Moves w.status awake counted w'.status
  unfolding send_busy
  send_busy-Moves w w' item start res e =
      let (item', resolved, rest) = bind-eq-ok (resolve_strings item) _ e in
      let ((w'', res'), hit, last) = bind-eq-ok (do_busy R nib rand w item') _ rest in
      let late = (res'.start_time + (2 ^ 64 - start % 2 ^ 64)) % 2 ^ 64 in
      let same : start_missed w''.status late ≡ w'.status =
        ap (λ (p : Worker × Option OutputItem). p.0.status) (ok-inj last) in
      subst (Moves w.status awake counted) same
        (and_then (do_busy-Moves w w'' item' res' hit) (counts late))

  send-Moves :
      (w w' : Worker) (item : PayloadItem R.Re) (start : ℕ) (res : Option OutputItem)
      → send R nib rand w item start ≡ ok (w', res)
      → Moves w.status awake counted w'.status
  unfolding send
  send-Moves w w' item start res e = by_stopped w.stopped e
    where
      by_stopped :
          (b : Bool)
          → (if b then ok (w, none) else send_busy R nib rand w item start) ≡ ok (w', res)
          → Moves w.status awake counted w'.status
      by_stopped true e' =
          let same : w.status ≡ w'.status =
            ap (λ (p : Worker × Option OutputItem). p.0.status) (ok-inj e') in
          subst (Moves w.status awake counted) same (and_then no_move is_stopped)
      by_stopped false e' = send_busy-Moves w w' item start res e'

  -- Where an iteration leaves its worker.
  abbrev pub phase_after : Bool → Phase
  phase_after true = gone
  phase_after false = between

  -- Whatever the two channels give and whether the worker is stopped meanwhile, an iteration that
  -- returns changes the counters by a row of moves: from the phase between two iterations back to
  -- it or, if the iteration tells the worker to stop, to the phase of those that are gone.
  pub iteration-Moves :
      (w w' : Worker) (cache cache' : Map R.Re) (offset : ℕ) (item : Option (PayloadItem R.Re))
      (now : ℕ) (stops should_stop : Bool) (res : Option OutputItem)
      → iteration R nib rand w cache offset item now stops ≡ ok (should_stop, w', cache', res)
      → Moves w.status between (phase_after should_stop) w'.status
  unfolding iteration
  iteration-Moves w w' cache cache' offset none now stops should_stop res e =
      let closed = ok-inj e in
      subst
        (λ (p : Bool × Worker × Map R.Re × Option OutputItem).
          Moves w.status between (phase_after p.0) p.1.status)
        closed (and_then (and_then no_move starts_waiting) input_closed)
  iteration-Moves w w' cache cache' offset (some item) now stops should_stop res e =
      let start : ℕ = w.start_time + offset in
      let at_work_now = inc_working (dec_waiting (inc_waiting w.status)) in
      let ((item', cache''), replaced, rest) =
        bind-eq-ok (replace_values R w.values cache item) _ e in
      let (o, slept, rest') = bind-eq-ok (sleep at_work_now now start) _ rest in
      let awake_now = record w { status = o; iteration_count = up w.iteration_count } in
      let before = if stops then stop awake_now else awake_now in
      let ((w'', res'), sent, rest'') = bind-eq-ok (send R nib rand before item' start) _ rest' in
      let (o', left, last) = bind-eq-ok (dec_working w''.status) _ rest'' in
      let sends =
        subst (λ (a : Status). Moves a awake counted w''.status) (same_status stops awake_now)
          (send-Moves before w'' item' start res' sent) in
      let arrives = and_then (and_then (and_then no_move starts_waiting) takes) works in
      let all =
        Moves-trans
          (Moves-trans (Moves-trans arrives (sleep-Moves at_work_now o now start slept)) sends)
          (dec_working-Moves w''.status o' left) in
      subst
        (λ (p : Bool × Worker × Map R.Re × Option OutputItem).
          Moves w.status between (phase_after p.0) p.1.status)
        (ok-inj last) all
