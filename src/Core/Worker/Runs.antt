-- ===== src/Core/Worker/Runs.antt =====
-- `Worker.Run` from its first iteration to its last.
use encarno.Base.{
  if◌then◌else◌, ℕ, ◌+◌, ◌^◌, ◌<◌, ◌≡◌, refl, ap, ◌∙◌, Bool, true, false, none, some, List, [], ◌∷◌,
  length, arith, ok,
}
use encarno.Base.Bytes.{Bytes}
use encarno.Base.Map.{Map}
use encarno.Core.Input.{PayloadItem}
use encarno.Core.Output.{OutputItem}
use encarno.Core.Regexp.{Regexp}
use encarno.Core.Status.{inc_waiting, inc_busy, start_missed}
use encarno.Core.Worker.{Worker, Nib, Turn, complete, iteration, run}
use encarno.Core.Worker.Iterations.{IsSane, Passes, result_of, after_iteration, iteration_eq}

if-No : {A : Type 0} (b : Bool) (x y : A) → b ≡ false → (if b then x else y) ≡ y
if-No b x y h = rw h refl

module _ (R : Regexp) (rand : ℕ → ℕ) where
  -- Turns whose items all go through, with what the nib sends and makes of each, until the channel
  -- of items is closed, or until the abort. `gone` is 1 in the first case and 0 in the second.
  pub data Served
      : Map Bytes
        → Map R.Re
        → List (Turn R)
        → List (PayloadItem R.Re × OutputItem)
        → Map Bytes
        → Map R.Re
        → ℕ
        → Type 0 where
    closes :
        {values : Map Bytes} {cache : Map R.Re} (nib : Nib R.Re) (offset now : ℕ) (stops : Bool)
        (turns : List (Turn R))
        → Served values cache
            (record { nib = nib; offset = offset; item = none; now = now; stops = stops } ∷ turns)
            []
            values
            cache
            1
    aborts : {values : Map Bytes} {cache : Map R.Re} → Served values cache [] [] values cache 0
    serves :
        {values : Map Bytes} {cache : Map R.Re} {turns : List (Turn R)} {values' : Map Bytes}
        {cache' : Map R.Re} {served : List (PayloadItem R.Re × OutputItem)} {values'' : Map Bytes}
        {cache'' : Map R.Re} {gone : ℕ} (nib : Nib R.Re) (offset now : ℕ)
        (item sent : PayloadItem R.Re) (res : OutputItem)
        → Passes R nib rand values cache item cache' sent res values'
        → Served values' cache' turns served values'' cache'' gone
        → Served values cache
            (record { nib = nib; offset = offset; item = some item; now = now; stops = false }
              ∷ turns)
            ((sent, res) ∷ served)
            values''
            cache''
            gone

  -- The results of a worker, in its order.
  abbrev pub results_of : Worker → List (PayloadItem R.Re × OutputItem) → List OutputItem
  results_of w [] = []
  results_of w ((sent, res) ∷ served) = result_of R w sent res ∷ results_of w served

  -- An iteration changes nothing that results tell of their worker.
  results_of_after :
      (w : Worker) (out : OutputItem) (start : ℕ) (values : Map Bytes)
      (served : List (PayloadItem R.Re × OutputItem))
      → results_of (after_iteration R w out start values) served ≡ results_of w served
  unfolding complete inc_busy start_missed
  results_of_after w out start values [] = refl
  results_of_after w out start values ((sent, res) ∷ served) =
      ap (◌∷◌ (result_of R w sent res)) (results_of_after w out start values served)

  -- What a run leaves.
  pub record Ran (w : Worker) (last : Map Bytes) (n gone : ℕ) (w' : Worker) : Type 0 where
    pub finished : w'.finished ≡ true
    pub values : w'.values ≡ last
    pub cnt : w'.status.cnt ≡ w.status.cnt + n
    pub waiting : w'.status.waiting ≡ w.status.waiting + gone
    pub sleeping : w'.status.sleeping ≡ w.status.sleeping
    pub busy : w'.status.busy ≡ w.status.busy
    pub working : w'.status.working ≡ w.status.working

  -- A worker that is not stopped runs at least one iteration, and goes on unless told to stop.
  run_first :
      (w w1 w2 : Worker) (cache cache1 cache2 : Map R.Re) (t : Turn R) (turns : List (Turn R))
      (out : OutputItem) (rest : List OutputItem)
      → w.stopped ≡ false
      → iteration R t.nib rand w cache t.offset t.item t.now t.stops
        ≡ ok (false, w1, cache1, some out)
      → run R rand w1 cache1 turns ≡ ok (w2, cache2, rest)
      → run R rand w cache (t ∷ turns) ≡ ok (w2, cache2, out ∷ rest)
  unfolding run
  run_first w w1 w2 cache cache1 cache2 t turns out rest h e e' =
      if-No w.stopped _ _ h ∙ rw e (rw e' refl)

  -- The counters have room. A worker that is not stopped, and whose items have variables that can be
  -- replaced, texts that can be looked up and values that can be extracted with the values of the
  -- responses before, finishes when the channel of items is closed or the abort is signalled. It
  -- pushes the results of its items in their order, each once; has the values of the last response;
  -- and has counted each request. The counters of workers are back where they were, but after a
  -- closed channel it stays counted as waiting.
  pub run-Served :
      (w : Worker) (cache : Map R.Re) (turns : List (Turn R))
      (served : List (PayloadItem R.Re × OutputItem)) (values : Map Bytes) (cache' : Map R.Re)
      (gone : ℕ)
      → IsSane w.status
      → w.stopped ≡ false
      → w.status.cnt + length served < 2 ^ 64
      → Served w.values cache turns served values cache' gone
      → (w' : Worker) × (run R rand w cache turns ≡ ok (w', cache', results_of w served))
        × Ran w values (length served) gone w'
  unfolding run iteration inc_waiting start_missed
  run-Served w cache turns served values cache' gone s h few (closes nib offset now stops rest) =
      let closed : Worker = record w { status = inc_waiting w.status } in
      (
        record closed { finished = true },
        if-No w.stopped _ _ h,
        record {
          finished = refl;
          values = refl;
          cnt = omega arith;
          waiting = omega (arith, s.waiting);
          sleeping = refl;
          busy = refl;
          working = refl;
        },
      )
  run-Served w cache turns served values cache' gone s h few aborts = (
    record w { finished = true },
    refl,
    record {
      finished = refl;
      values = refl;
      cnt = omega arith;
      waiting = omega arith;
      sleeping = refl;
      busy = refl;
      working = refl;
    },
  )
  run-Served w cache turns served values cache' gone s h few
        (serves {turns = turns'} {values' = values'} {cache' = cache1} {served = served'} nib offset
          now item sent res x more) =
      let out = result_of R w sent res in
      let w1 = after_iteration R w out (w.start_time + offset) values' in
      let s1 : IsSane w1.status = record {
        sleeping = s.sleeping;
        busy = s.busy;
        working = s.working;
        waiting = s.waiting;
      } in
      let (w2, e, ran) =
        run-Served w1 cache1 turns' served' values cache' gone s1 h (omega (arith, few)) more in
      (
        w2,
        run_first w w1 w2 cache cache1 cache'
            (record { nib = nib; offset = offset; item = some item; now = now; stops = false })
            turns' out (results_of w served') h
            (iteration_eq R nib rand w cache item offset now cache1 sent res values' s h x)
            (e
              ∙ ap (λ (outs : List OutputItem). ok (w2, cache', outs))
                  (results_of_after w out (w.start_time + offset) values' served')),
        record {
          finished = ran.finished;
          values = ran.values;
          cnt = omega (arith, ran.cnt, few);
          waiting = ran.waiting;
          sleeping = ran.sleeping;
          busy = ran.busy;
          working = ran.working;
        },
      )
