-- ===== src/Scenario/Open/Runs.antt =====
-- What `Run` of an open workload does with a schedule.
use encarno.Base.{
  ℕ, zero, suc, ◌+◌, ◌/◌, ◌^◌, ◌≤◌, ◌<◌, ◌≡◌, refl, ap, ◌∙◌, true, false, ◌||◌, ◌&&◌, not, inl, inr,
  List, [], ◌∷◌, ◌==◌, length, take, arith, slt, slt_small, ltb, Bool-cases, ok, panic, blocked,
}
use encarno.Base.Double.{Double}
use encarno.Base.Int.{ℤ, pos, negsuc}
use encarno.Core.Status.{is_negative}
use encarno.Core.Workload.{BaseWorkload, spawn_worker, stop_workers}
use encarno.Core.Workload.Staff.{
  IsNumbered, AllStopped, IsStaffed, spawn_worker-IsStaffed, stop_workers-IsStaffed,
}
use encarno.Scenario.Open.{
  Moment, OpenWorkload, min_int, at_least_one, not_maxed, spawn_times, spawn_initial,
  spawn_if_needed, run_loop, run,
}
use encarno.Scenario.Open.Schedules.{IsAscending}

-- The count keeps to a maximum, if one is given.
abbrev pub IsWithinMax : ℤ → ℕ → Type 0
IsWithinMax (pos (suc m)) n = n ≤ suc m
IsWithinMax (pos zero) n = Unit
IsWithinMax (negsuc m) n = Unit

abbrev pub offsets : List (ℕ × Moment) → List ℕ
offsets [] = []
offsets ((o, m) ∷ turns) = o ∷ offsets turns

-- A worker reads the channel whenever an offset is sent, at once or later.
abbrev pub AllTaken : List (ℕ × Moment) → Type 0
AllTaken [] = Unit
AllTaken ((o, m) ∷ turns) = (m.reading || m.taken ≡ true) × AllTaken turns

module _ (D : Double) where
  -- What `Run` does to a workload before it stops the workers.
  pub record Grows (s t : OpenWorkload D) : Type 0 where
    pub staffed : IsStaffed D t.base
    pub same_max : t.max_workers ≡ s.max_workers
    pub same_done : t.done ≡ s.done
    pub same_start : t.base.start_time ≡ s.base.start_time
    pub keeps : length s.base.workers ≤ length t.base.workers
    pub bounded :
        (m : ℕ)
        → s.max_workers ≡ pos (suc m)
        → length s.base.workers ≤ suc m
        → length t.base.workers ≤ suc m

  Grows-refl : (s : OpenWorkload D) → IsStaffed D s.base → Grows s s
  Grows-refl s h = record {
    staffed = h;
    same_max = refl;
    same_done = refl;
    same_start = refl;
    keeps = omega arith;
    bounded = λ m e le. le;
  }

  Grows-trans : (s t u : OpenWorkload D) → Grows s t → Grows t u → Grows s u
  Grows-trans s t u g h = record {
    staffed = h.staffed;
    same_max = h.same_max ∙ g.same_max;
    same_done = h.same_done ∙ g.same_done;
    same_start = h.same_start ∙ g.same_start;
    keeps = omega (arith, g.keeps, h.keeps);
    bounded = λ m e le. h.bounded m (g.same_max ∙ e) (g.bounded m e le);
  }

  -- One more worker is within the limit if the limit was not met.
  Grows-spawn :
      (s : OpenWorkload D)
      → IsStaffed D s.base
      → not_maxed s.max_workers (length s.base.workers) ≡ true
      → Grows s (record s { base = spawn_worker D s.base })
  Grows-spawn s h free =
      let (h', e) = spawn_worker-IsStaffed D s.base h in
      record {
        staffed = h';
        same_max = refl;
        same_done = refl;
        same_start = (unfold spawn_worker in refl);
        keeps = omega (arith, e);
        bounded = λ m e' le. ground (arith, e, free, e');
      }

  spawn_if_needed-Grows :
      (s : OpenWorkload D) (m : Moment) → IsStaffed D s.base → Grows s (spawn_if_needed D s m)
  unfolding spawn_if_needed
  spawn_if_needed-Grows s m h = elim (Bool-cases m.reading) [
    | inl e ↦ rw e (Grows-refl s h)
    | inr e ↦ rw e (elim (Bool-cases (not_maxed s.max_workers (length s.base.workers))) [
      | inr f ↦ rw f (Grows-refl s h)
      | inl f ↦ rw f (elim (Bool-cases (is_negative m.sleeping || m.sleeping == 0)) [
        | inr g ↦ rw g (Grows-refl s h)
        | inl g ↦ rw g (Grows-spawn s h f)
      ])
    ])
  ]

  spawn_times-IsStaffed :
      (n : ℕ) (s : BaseWorkload D)
      → IsStaffed D s
      → IsStaffed D (spawn_times D n s)
        × (length (spawn_times D n s).workers ≡ length s.workers + n)
  unfolding spawn_times
  spawn_times-IsStaffed zero s h = (h, omega arith)
  spawn_times-IsStaffed (suc n) s h =
      let (h', e) = spawn_worker-IsStaffed D s h in
      let (h'', e') = spawn_times-IsStaffed n (spawn_worker D s) h' in (h'', omega (arith, e, e'))

  -- The loop does not panic on offsets that never decrease, and sends the first of them.
  run_loop_lem :
      (s : OpenWorkload D) (stop_cutoff last : ℕ) (turns : List (ℕ × Moment))
      → IsStaffed D s.base
      → last < 2 ^ 63
      → IsAscending last (offsets turns)
      → AllTaken turns
      → (t : OpenWorkload D) × (sent : List ℕ) × (run_loop D s stop_cutoff last turns
          ≡ ok (t, sent))
        × Grows s t
        × (sent ≡ take (length sent) (offsets turns))
  unfolding run_loop spawn_if_needed spawn_if_needed-Grows
  run_loop_lem s stop_cutoff last [] h l a taken = (s, [], refl, Grows-refl s h, refl)
  run_loop_lem s stop_cutoff last ((o, m) ∷ turns) h l (le, small, a) (now_taken, taken) =
      let g = spawn_if_needed-Grows s m h in
      let (t, sent, e, g', p) =
        run_loop_lem (spawn_if_needed D s m) stop_cutoff o turns g.staffed small a taken in
      let free : not m.reading && not m.taken ≡ false = ground (arith, now_taken) in
      let order : slt o last ≡ false = ground (arith, slt_small o last) in
      elim (Bool-cases m.interrupted) [
        | inl i ↦ (s, [], rw i refl, Grows-refl s h, refl)
        | inr i ↦ elim (Bool-cases (ltb stop_cutoff m.now)) [
          | inl c ↦ (s, [], rw i (rw order (rw c refl)), Grows-refl s h, refl)
          | inr c ↦ (
            t,
            o ∷ sent,
            rw i (rw order (rw c (rw free (rw e refl)))),
            Grows-trans s (spawn_if_needed D s m) t g g',
            ap (◌∷◌ o) p,
          )
        ]
      ]

  spawn_times-start_time :
      (n : ℕ) (s : BaseWorkload D) → (spawn_times D n s).start_time ≡ s.start_time
  unfolding spawn_times spawn_worker
  spawn_times-start_time zero s = refl
  spawn_times-start_time (suc n) s = spawn_times-start_time n (spawn_worker D s)

  at_least_one-le : (m : ℕ) (z : ℤ) → at_least_one (min_int (pos (suc m)) z) ≤ suc m
  at_least_one-le m (pos n) = ground arith
  at_least_one-le m (negsuc n) = omega arith

  at_least_one_pos : (z : ℤ) → 1 ≤ at_least_one z
  at_least_one_pos (pos n) = ground arith
  at_least_one_pos (negsuc n) = omega arith

  within_max : (z : ℤ) (n : ℕ) → ((m : ℕ) → z ≡ pos (suc m) → n ≤ suc m) → IsWithinMax z n
  within_max (pos (suc m)) n h = h m refl
  within_max (pos zero) n h = tt
  within_max (negsuc m) n h = tt

  -- No worker has been started yet, the offsets of the schedule never decrease, and for each offset
  -- that arrives there is a worker that reads the channel, at once or later. Then `Run` returns,
  -- whatever else it finds when they arrive: interruptions, the time, whether workers are sleeping.
  -- It sends workers the first of the offsets, in their order; the workers are at least one, are
  -- numbered from one on, and no more than the maximum, if one is given; in the end all are told to
  -- stop, and one signal is given that the run is done.
  pub run_lem :
      (s : OpenWorkload D) (turns : List (ℕ × Moment))
      → s.base.workers ≡ []
      → s.base.cnt ≡ 0
      → IsAscending 0 (offsets turns)
      → AllTaken turns
      → (t : OpenWorkload D) × (sent : List ℕ) × (run D s turns ≡ ok (t, sent))
        × (sent ≡ take (length sent) (offsets turns))
        × (1 ≤ length t.base.workers)
        × IsNumbered 1 t.base.workers
        × AllStopped t.base.workers
        × IsWithinMax s.max_workers (length t.base.workers)
        × (t.done ≡ s.done + 1)
  unfolding run spawn_initial
  run_lem s turns none counted a taken =
      let n = at_least_one (min_int s.max_workers s.min_workers) in
      let staffed : IsStaffed D s.base = record {
        numbered = rw none tt;
        counted = omega (arith, counted, ap length none);
      } in
      let (h, e) = spawn_times-IsStaffed n s.base staffed in
      let first : OpenWorkload D = record s { base = spawn_times D n s.base } in
      let cutoff : ℕ = s.base.start_time + (s.sum_durations + s.sum_durations / 10) in
      let (t, sent, r, g, p) = run_loop_lem first cutoff 0 turns h (omega arith) a taken in
      let (h', stopped, l) = stop_workers-IsStaffed D t.base g.staffed in
      (
        record t { base = stop_workers D t.base; done = t.done + 1 },
        sent,
        rw r refl,
        p,
        omega (arith, l, g.keeps, e, at_least_one_pos (min_int s.max_workers s.min_workers)),
        h'.numbered,
        stopped,
        within_max s.max_workers _
            (λ m k. omega (arith, l, g.bounded m k (within m k (ap length none) e))),
        omega (arith, g.same_done),
      )
    where
      within :
          (m : ℕ)
          → s.max_workers ≡ pos (suc m)
          → length s.base.workers ≡ 0
          → length
              (spawn_times D (at_least_one (min_int s.max_workers s.min_workers)) s.base).workers
            ≡ length s.base.workers + at_least_one (min_int s.max_workers s.min_workers)
          → length
              (spawn_times D (at_least_one (min_int s.max_workers s.min_workers)) s.base).workers
            ≤ suc m
      within m k z e = rw e (rw k (omega (arith, z, at_least_one-le m s.min_workers)))

  -- The run has started its workers, and an offset arrives in order and before the cutoff, with no
  -- interrupt, when no worker reads the channel or ever will. Then `Run` hangs in the send for ever,
  -- whatever else would come.
  pub run_loop_blocked :
      (s : OpenWorkload D) (stop_cutoff last offset : ℕ) (m : Moment) (turns : List (ℕ × Moment))
      → m.interrupted ≡ false
      → slt offset last ≡ false
      → ltb stop_cutoff m.now ≡ false
      → m.reading ≡ false
      → m.taken ≡ false
      → run_loop D s stop_cutoff last ((offset, m) ∷ turns) ≡ panic blocked
  unfolding run_loop
  run_loop_blocked s stop_cutoff last offset m turns i order c r t =
      ground (arith, i, order, c, r, t)
