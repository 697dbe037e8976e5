-- ===== src/Scenario/Closed/Runs.antt =====
-- What `Run` of a closed workload does with a schedule.
use mathlib.Core.Bool.{and-false}
use encarno.Base.{
  ℕ, suc, ◌+◌, ◌≤◌, ◌<◌, ◌≡◌, refl, ◌∙◌, true, false, ◌&&◌, ◌⊎◌, inl, inr, Option, none, some, List,
  [], ◌∷◌, length, arith, ap, Bool-cases,
}
use encarno.Base.Double.{Double, IsExact}
use encarno.Core.Workload.{BaseWorkload, spawn_worker}
use encarno.Core.Workload.Staff.{
  IsNumbered, AllStopped, IsStaffed, empty-IsStaffed, spawn_worker-IsStaffed,
  stop_workers-IsStaffed,
}
use encarno.Scenario.Closed.{
  Moment, ClosedWorkload, initial_or, is_early, generate_schedule, run_loop, run,
}
use encarno.Scenario.Closed.Levels.{Step, IsRising, last_level, levels_of, generate_schedule_lem}

-- No interrupt comes while the loop sleeps.
abbrev pub Uninterrupted : List (ℕ × Moment) → Type 0
Uninterrupted [] = Unit
Uninterrupted ((offset, m) ∷ turns) = (m.interrupted ≡ false) × Uninterrupted turns

abbrev pub offsets : List (ℕ × Moment) → List ℕ
offsets [] = []
offsets ((o, m) ∷ turns) = o ∷ offsets turns

length-offsets : (turns : List (ℕ × Moment)) → length (offsets turns) ≡ length turns
length-offsets [] = refl
length-offsets ((o, m) ∷ turns) = ap suc (length-offsets turns)

module _ (D : Double) where
  run_loop-IsStaffed :
      (s : BaseWorkload D) (sub_initial : Option ℕ) (turns : List (ℕ × Moment))
      → IsStaffed D s
      → IsStaffed D (run_loop D s sub_initial turns).0
        × (length s.workers ≤ length (run_loop D s sub_initial turns).0.workers)
        × (length (run_loop D s sub_initial turns).0.workers ≤ length s.workers + length turns)
        × (((run_loop D s sub_initial turns).1 ≡ true)
            ⊎ (length (run_loop D s sub_initial turns).0.workers ≡ length s.workers + length turns))
  unfolding run_loop
  run_loop-IsStaffed s sub_initial [] h = (h, omega arith, omega arith, inr (omega arith))
  run_loop-IsStaffed s sub_initial ((offset, m) ∷ turns) h =
      let initial = initial_or sub_initial offset in
      let (h', e) = spawn_worker-IsStaffed D s h in
      let (g, more, fewer, all) = run_loop-IsStaffed (spawn_worker D s) (some initial) turns h' in
      elim (Bool-cases (is_early D s initial offset m && m.interrupted)) [
        | inl i ↦ rw i (h, omega arith, omega arith, inl refl)
        | inr i ↦ rw i (
          g,
          omega (arith, e),
          omega (arith, e),
          (elim all [ inl k ↦ inl k | inr k ↦ inr (omega (arith, e, k)) ]),
        )
      ]

  run_loop-Uninterrupted :
      (s : BaseWorkload D) (sub_initial : Option ℕ) (turns : List (ℕ × Moment))
      → Uninterrupted turns
      → (run_loop D s sub_initial turns).1 ≡ false
  unfolding run_loop
  run_loop-Uninterrupted s sub_initial [] u = refl
  run_loop-Uninterrupted s sub_initial ((offset, m) ∷ turns) (u, us) =
      let initial = initial_or sub_initial offset in
      let early = is_early D s initial offset m in
      let test : (early && m.interrupted) ≡ false = ap (◌&&◌ early) u ∙ and-false early in
      rw test (run_loop-Uninterrupted (spawn_worker D s) (some initial) turns us)

  -- No worker has been started yet. Whatever `Run` finds, at most one worker is started for each
  -- offset of the schedule; they are numbered from one on, in the end all are told to stop, and
  -- one signal is given that the run is done.
  pub run_bounded :
      (s : ClosedWorkload D) (turns : List (ℕ × Moment))
      → s.base.workers ≡ []
      → s.base.cnt ≡ 0
      → (length (run D s turns).base.workers ≤ length turns)
        × IsNumbered 1 (run D s turns).base.workers
        × AllStopped (run D s turns).base.workers
        × ((run D s turns).done ≡ s.done + 1)
  unfolding run
  run_bounded s turns empty counted =
      let staffed = empty-IsStaffed D s.base empty counted in
      let (h, more, fewer, all) = run_loop-IsStaffed s.base none turns staffed in
      let (h', stopped, l) = stop_workers-IsStaffed D (run_loop D s.base none turns).0 h in
      (omega (arith, l, fewer, ap length empty), h'.numbered, stopped, refl)

  -- Whole levels that never fall, on floats that are exact for whole numbers. When the offsets of
  -- their schedule arrive and no interrupt comes, as many workers are running as the last level
  -- says, until in the end all are told to stop.
  pub run-generate_schedule :
      (exact : IsExact D) (fuel : ℕ) (s : ClosedWorkload D) (steps : List Step)
      (turns : List (ℕ × Moment))
      → s.base.workers ≡ []
      → s.base.cnt ≡ 0
      → IsRising 0 steps
      → last_level 0 steps < fuel
      → generate_schedule D fuel (levels_of D exact steps) (D.of_int64 0) 0 ≡ some (offsets turns)
      → Uninterrupted turns
      → (length (run D s turns).base.workers ≡ last_level 0 steps)
        × AllStopped (run D s turns).base.workers
  unfolding run
  run-generate_schedule exact fuel s steps turns empty counted r f e u =
      let staffed = empty-IsStaffed D s.base empty counted in
      let (h, more, fewer, all) = run_loop-IsStaffed s.base none turns staffed in
      let (h', stopped, l) = stop_workers-IsStaffed D (run_loop D s.base none turns).0 h in
      let (os, e', l') = generate_schedule_lem D exact fuel 0 0 steps r f in
      let same : offsets turns ≡ os = cc (e, e') in
      let n = run_loop-Uninterrupted s.base none turns u in
      (
        elim all [
          | inl k ↦ absurd (cc (k, n))
          | inr k ↦ omega (arith, l, k, l', ap length same, length-offsets turns, ap length empty)
        ],
        stopped,
      )
