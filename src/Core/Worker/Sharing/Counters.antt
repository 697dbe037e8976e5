-- ===== src/Core/Worker/Sharing/Counters.antt =====
-- Workers that share the counters: what the counters say.
use encarno.Base.{
  ℕ, ◌+◌, ◌^◌, ◌<◌, ◌≤◌, ◌≡◌, List, [], ◌∷◌, ◌++◌, length, arith, refl, ap, length-append,
}
use encarno.Core.Status.{
  Status, inc_waiting, dec_waiting, inc_working, dec_sleeping, inc_busy, start_missed, take_counts,
}
use encarno.Core.Worker.Sharing.{
  Phase, between, awaiting, at_work, asleep, punching, Move, sleep_panics, busy_panics, work_panics,
  System, in_waiting, in_gone, in_working, in_sleeping, in_busy, in_answered, in_crashed, total,
  Step, moves, spawns, reports, Reach, stay, then_step, at_first, Inv,
}

total-append : (f : Phase → ℕ) (xs ys : List Phase) → total f (xs ++ ys) ≡ total f xs + total f ys
total-append f [] ys = omega arith
total-append f (x ∷ xs) ys = omega (arith, total-append f xs ys)

-- A phase in the middle.
total_middle :
    (f : Phase → ℕ) (before : List Phase) (p : Phase) (after : List Phase)
    → total f (before ++ p ∷ after) ≡ f p + total f (before ++ after)
total_middle f before p after =
    omega (arith, total-append f before (p ∷ after), total-append f before after)

-- The counters, with a worker in a phase and the others counted by numbers.
record Counts (o : Status) (w k z b r q : ℕ) (p : Phase) : Type 0 where
  pub waiting : o.waiting ≡ in_waiting p + in_gone p + w
  pub working : o.working ≡ in_working p + k
  pub sleeping : o.sleeping ≡ in_sleeping p + z
  pub busy : o.busy ≡ in_busy p + b
  pub told : r + o.cnt ≡ q
  pub safe : in_crashed p ≡ 0

-- Room for one more of each.
record Room (w k z b q : ℕ) : Type 0 where
  pub waiting : w + 1 < 2 ^ 63
  pub working : k + 1 < 2 ^ 63
  pub sleeping : z + 1 < 2 ^ 63
  pub busy : b + 1 < 2 ^ 63
  pub requests : q + 1 < 2 ^ 64

Move-Counts :
    (o o' : Status) (p p' : Phase) (w k z b r q : ℕ)
    → Room w k z b q
    → Move o p p' o'
    → Counts o w k z b r q p
    → Counts o' w k z b r (q + in_answered p) p'
unfolding inc_waiting dec_waiting inc_working dec_sleeping inc_busy start_missed
Move-Counts o o' p p' w k z b r q h (sleep_panics e) c = ground (arith, e, c.sleeping, h.sleeping)
Move-Counts o o' p p' w k z b r q h (busy_panics e) c = ground (arith, e, c.busy, h.busy)
Move-Counts o o' p p' w k z b r q h (work_panics e) c = ground (arith, e, c.working, h.working)
Move-Counts o o' p p' w k z b r q h m c = record {
  waiting = omega (arith, c.waiting, h.waiting);
  working = omega (arith, c.working, h.working);
  sleeping = omega (arith, c.sleeping, h.sleeping);
  busy = omega (arith, c.busy, h.busy);
  told = omega (arith, c.told, h.requests);
  safe = refl;
}

waits_once : (p : Phase) → in_waiting p + in_gone p ≤ 1
waits_once awaiting = omega arith
waits_once p = omega arith

total-bounded : (f : Phase → ℕ) (ps : List Phase) → ((p : Phase) → f p ≤ 1) → total f ps ≤ length ps
total-bounded f [] h = omega arith
total-bounded f (p ∷ ps) h = omega (arith, h p, total-bounded f ps h)

total_waiting-bounded : (ps : List Phase) → total in_waiting ps + total in_gone ps ≤ length ps
total_waiting-bounded [] = omega arith
total_waiting-bounded (p ∷ ps) = omega (arith, waits_once p, total_waiting-bounded ps)

working_once : (p : Phase) → in_working p ≤ 1
working_once at_work = omega arith
working_once p = omega arith

sleeping_once : (p : Phase) → in_sleeping p ≤ 1
sleeping_once asleep = omega arith
sleeping_once p = omega arith

busy_once : (p : Phase) → in_busy p ≤ 1
busy_once punching = omega arith
busy_once p = omega arith

Step-Inv :
    {s t : System} → Inv s → Step s t → length t.phases < 2 ^ 63 → t.requests + 1 < 2 ^ 64 → Inv t
unfolding take_counts
Step-Inv {s = s} {t = t} i (moves before after p q o e m) few short =
    let rest = before ++ after in
    let size : length rest + 1 < 2 ^ 63 =
      omega (arith, few, length-append before (q ∷ after), length-append before after) in
    let c =
      Move-Counts s.status o p q (total in_waiting rest + total in_gone rest)
        (total in_working rest) (total in_sleeping rest) (total in_busy rest) s.reported s.requests
        (record {
          waiting = omega (arith, size, total_waiting-bounded rest);
          working = omega (arith, size, total-bounded in_working rest working_once);
          sleeping = omega (arith, size, total-bounded in_sleeping rest sleeping_once);
          busy = omega (arith, size, total-bounded in_busy rest busy_once);
          requests = omega (arith, short);
        })
        m
        (record {
          waiting = omega (
            arith,
            i.waiting,
            ap (total in_waiting) e,
            ap (total in_gone) e,
            total_middle in_waiting before p after,
            total_middle in_gone before p after,
          );
          working =
              omega
                (arith, i.working, ap (total in_working) e, total_middle in_working before p after);
          sleeping = omega (
            arith,
            i.sleeping,
            ap (total in_sleeping) e,
            total_middle in_sleeping before p after,
          );
          busy = omega (arith, i.busy, ap (total in_busy) e, total_middle in_busy before p after);
          told = i.told;
          safe =
              omega (
                arith,
                i.no_panic,
                ap (total in_crashed) e,
                total_middle in_crashed before p after,
              );
        }) in
    record {
      waiting = omega (
        arith,
        c.waiting,
        total_middle in_waiting before q after,
        total_middle in_gone before q after,
      );
      working = omega (arith, c.working, total_middle in_working before q after);
      sleeping = omega (arith, c.sleeping, total_middle in_sleeping before q after);
      busy = omega (arith, c.busy, total_middle in_busy before q after);
      told = c.told;
      no_panic = omega (
        arith,
        i.no_panic,
        ap (total in_crashed) e,
        total_middle in_crashed before p after,
        c.safe,
        total_middle in_crashed before q after,
      );
    }
Step-Inv {s = s} i spawns few short = record {
  waiting = omega (
    arith,
    i.waiting,
    total-append in_waiting s.phases (between ∷ []),
    total-append in_gone s.phases (between ∷ []),
  );
  working = omega (arith, i.working, total-append in_working s.phases (between ∷ []));
  sleeping = omega (arith, i.sleeping, total-append in_sleeping s.phases (between ∷ []));
  busy = omega (arith, i.busy, total-append in_busy s.phases (between ∷ []));
  told = i.told;
  no_panic = omega (arith, i.no_panic, total-append in_crashed s.phases (between ∷ []));
}
Step-Inv {s = s} i reports few short = record {
  waiting = i.waiting;
  working = i.working;
  sleeping = i.sleeping;
  busy = i.busy;
  told = omega (arith, i.told);
  no_panic = i.no_panic;
}

-- Workers and requests only become more.
Step-grows :
    {s t : System} → Step s t → (length s.phases ≤ length t.phases) × (s.requests ≤ t.requests)
Step-grows {s = s} (moves before after p q o e m) = (
  omega (arith, ap length e, length-append before (p ∷ after), length-append before (q ∷ after)),
  omega arith,
)
Step-grows {s = s} spawns = (omega (arith, length-append s.phases (between ∷ [])), omega arith)
Step-grows {s = s} reports = (omega arith, omega arith)

-- From the start, with fewer workers than 2^63 and not quite 2^64 requests, however the goroutines
-- take turns: the counter of waiting workers is the number of those that wait for an item and of
-- those that ended when the input was closed, the other three are the numbers of those that are
-- at work, asleep and busy, and each request that was counted as started is in one report, or
-- still to be reported. No check has found a counter negative.
pub Reach-Inv_exact :
    {s : System} → Reach at_first s → length s.phases < 2 ^ 63 → s.requests + 1 < 2 ^ 64 → Inv s
Reach-Inv_exact stay few short = record {
  waiting = omega arith;
  working = refl;
  sleeping = refl;
  busy = refl;
  told = omega arith;
  no_panic = refl;
}
Reach-Inv_exact (then_step {t} {u} r x) few short =
    let (grows, grows') = Step-grows x in
    Step-Inv (Reach-Inv_exact r (omega (arith, few, grows)) (omega (arith, short, grows'))) x few
      short
