-- ===== src/Core/Workload/Staff.antt =====
-- The workers of a workload: numbered as they are started, and stopped in the end.
use encarno.Base.{
  ℕ, suc, ◌+◌, ◌≡◌, refl, sym, ap, ◌∙◌, true, List, [], ◌∷◌, ◌++◌, map, length, length-append,
  arith,
}
use encarno.Base.Double.{Double}
use encarno.Core.Worker.{Worker, stop}
use encarno.Core.Workload.{BaseWorkload, spawn_worker, stop_workers, new_basic_worker}

-- Workers carry the numbers from `n` on, in the order in which they were started.
abbrev pub IsNumbered : ℕ → List Worker → Type 0
IsNumbered n [] = Unit
IsNumbered n (w ∷ ws) = (w.index ≡ n) × IsNumbered (n + 1) ws

abbrev pub AllStopped : List Worker → Type 0
AllStopped [] = Unit
AllStopped (w ∷ ws) = (w.stopped ≡ true) × AllStopped ws

AllStopped-map-stop : (ws : List Worker) → AllStopped (map stop ws)
AllStopped-map-stop [] = tt
AllStopped-map-stop (w ∷ ws) = (refl, AllStopped-map-stop ws)

IsNumbered-map-stop : (n : ℕ) (ws : List Worker) → IsNumbered n ws → IsNumbered n (map stop ws)
IsNumbered-map-stop n [] h = tt
IsNumbered-map-stop n (w ∷ ws) (h, hs) = (h, IsNumbered-map-stop (n + 1) ws hs)

length-map-stop : (ws : List Worker) → length (map stop ws) ≡ length ws
length-map-stop [] = refl
length-map-stop (w ∷ ws) = ap suc (length-map-stop ws)

IsNumbered-append :
    (n : ℕ) (ws : List Worker) (w : Worker)
    → IsNumbered n ws
    → w.index ≡ n + length ws
    → IsNumbered n (ws ++ w ∷ [])
IsNumbered-append n [] w h e = (omega (arith, e), tt)
IsNumbered-append n (v ∷ ws) w (h, hs) e = (h, IsNumbered-append (n + 1) ws w hs (omega (arith, e)))

module _ (D : Double) where
  -- What every step of a scenario keeps: workers are numbered from one on, and counted.
  pub record IsStaffed (s : BaseWorkload D) : Type 0 where
    pub numbered : IsNumbered 1 s.workers
    pub counted : s.cnt ≡ length s.workers

  pub spawn_worker-IsStaffed :
      (s : BaseWorkload D)
      → IsStaffed s
      → IsStaffed (spawn_worker D s) × (length (spawn_worker D s).workers ≡ length s.workers + 1)
  unfolding spawn_worker new_basic_worker
  spawn_worker-IsStaffed s h = (
    record {
      numbered = IsNumbered-append 1 s.workers _ h.numbered (omega (arith, h.counted));
      counted = omega (
        arith,
        h.counted,
        length-append s.workers
            (new_basic_worker D (s.cnt + 1) (record s { cnt = s.cnt + 1 }) ∷ []),
      );
    },
    length-append s.workers (new_basic_worker D (s.cnt + 1) (record s { cnt = s.cnt + 1 }) ∷ []),
  )

  pub stop_workers-IsStaffed :
      (s : BaseWorkload D)
      → IsStaffed s
      → IsStaffed (stop_workers D s)
        × AllStopped (stop_workers D s).workers
        × (length (stop_workers D s).workers ≡ length s.workers)
  unfolding stop_workers
  stop_workers-IsStaffed s h = (
    record {
      numbered = IsNumbered-map-stop 1 s.workers h.numbered;
      counted = h.counted ∙ sym (length-map-stop s.workers);
    },
    AllStopped-map-stop s.workers,
    length-map-stop s.workers,
  )

  pub empty-IsStaffed : (s : BaseWorkload D) → s.workers ≡ [] → s.cnt ≡ 0 → IsStaffed s
  empty-IsStaffed s empty counted = record {
    numbered = rw empty tt;
    counted = omega (arith, counted, ap length empty);
  }
