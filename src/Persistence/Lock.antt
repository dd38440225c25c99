-- ===== src/Persistence/Lock.antt =====
-- How long a lock outlives its detections (analytics/persistence_gate.hpp).
use gst_nvmm_cpp.Common.{
  ℕ, zero, suc, ◌+◌, ◌≤◌, ◌<◌, ◌≡◌, refl, ◌∙◌, ap, List, [], none, true, false, replicate, arith,
}
use gst_nvmm_cpp.Common.Float.{FloatOps}
use gst_nvmm_cpp.Persistence.{
  Detection, PersistenceGate, nearest_lock, update_locked, update_gate, run_gate,
}

module _ (F : FloatOps) (order : List Detection → List ℕ) where
  -- A frame without detections.
  missed_kept :
      (g : PersistenceGate)
      → g.locked ≡ true
      → g.lock_lost + 1 ≤ g.params.max_lost
      → update_gate F order [] g ≡ (none, record g { lock_lost = g.lock_lost + 1 })
  unfolding update_gate update_locked nearest_lock
  missed_kept g l h = ground (arith, l)

  missed_last :
      (g : PersistenceGate)
      → g.locked ≡ true
      → g.params.max_lost < g.lock_lost + 1
      → update_gate F order [] g
        ≡ (none, record g { lock_lost = g.lock_lost + 1; locked = false; tracks = [] })
  unfolding update_gate update_locked nearest_lock
  missed_last g l h = ground (arith, l)

  missed :
      (k : ℕ) (g : PersistenceGate)
      → g.locked ≡ true
      → g.lock_lost + k ≤ g.params.max_lost
      → run_gate F order (replicate k []) g ≡ record g { lock_lost = g.lock_lost + k }
  unfolding run_gate
  missed zero g l h =
      ap (λ n. record g { lock_lost = n }) {x = g.lock_lost} {y = g.lock_lost + 0} (omega arith)
  missed (suc k) g l h =
      rw (run_gate, missed_kept g l (omega arith))
        (missed k (record g { lock_lost = g.lock_lost + 1 }) l (omega arith)
          ∙ ap (λ n. record g { lock_lost = n }) {x = g.lock_lost + 1 + k} {y = g.lock_lost + suc k}
              (omega arith))

  released :
      (k : ℕ) (g : PersistenceGate)
      → g.locked ≡ true
      → g.lock_lost + k ≡ g.params.max_lost
      → let g' = run_gate F order (replicate (suc k) []) g in (g'.locked ≡ false) × (g'.tracks ≡ [])
  unfolding run_gate
  released zero g l e = rw (run_gate, missed_last g l (omega (arith, e))) (refl, refl)
  released (suc k) g l e =
      rw (run_gate, missed_kept g l (omega (arith, e)))
        (released k (record g { lock_lost = g.lock_lost + 1 }) l (omega (arith, e)))

  -- A lock on which `k` frames are left is held, at its place, through `k` frames without detections,
  -- and frame `k + 1` releases it and clears the tracks.
  pub run_gate-released :
      (k : ℕ) (g : PersistenceGate)
      → g.locked ≡ true
      → g.lock_lost + k ≡ g.params.max_lost
      → ((j : ℕ)
          → j ≤ k
          → let g' = run_gate F order (replicate j []) g in
            (g'.locked ≡ true) × (g'.lx ≡ g.lx) × (g'.ly ≡ g.ly))
        × (let g' = run_gate F order (replicate (suc k) []) g in
            (g'.locked ≡ false) × (g'.tracks ≡ []))
  run_gate-released k g l e =
      (λ j h. rw (missed j g l (omega (arith, e, h))) (l, refl, refl), released k g l e)
