-- ===== src/Tests/Gates.antt =====
-- analytics/persistence_gate.hpp and gst/common/shm_protocol.h at concrete inputs.
use gst_nvmm_cpp.Common.{ℕ, suc, ◌+◌, ◌≤◌, ◌≡◌, refl, List, [], ◌∷◌, true, false, replicate, arith}
use gst_nvmm_cpp.Common.Float.{whole}
use gst_nvmm_cpp.Ipc.Protocol.{header_bytes, frame_meta_bytes, segment_size, meta_address}
use gst_nvmm_cpp.Ipc.Metas.{meta_address-apart}
use gst_nvmm_cpp.Persistence.{
  Detection, PersistenceGate, reset_gate, run_gate, update_gate, tracked, associate_all, associate,
  nearest,
}
use gst_nvmm_cpp.Persistence.Young.{run_gate-early}
use gst_nvmm_cpp.Persistence.Lock.{run_gate-released}

meta_address-apart_run :
    (4096 + header_bytes ≤ meta_address 4096 2)
    × (meta_address 4096 2 + frame_meta_bytes ≤ meta_address 4096 15)
    × (meta_address 4096 15 + frame_meta_bytes ≤ 4096 + segment_size true)
meta_address-apart_run = meta_address-apart 4096 2 15 (omega arith) (omega arith)

-- One detection at most: its index alone.
abbrev first_only : List Detection → List ℕ
first_only [] = []
first_only (d ∷ ds) = 0 ∷ []

abbrev gate : PersistenceGate
gate = record {
  params = record { assoc_dist = 45; min_age = 3; min_support = 2; max_lost = 2 };
  tracks = [];
  locked = false;
  lock_lost = 0;
  lx = 0;
  ly = 0;
}

abbrev seen : List Detection
seen = record { cx = 10; cy = 10; conf = 9; supported = true } ∷ []

run_gate-early_run : (run_gate whole first_only (seen ∷ seen ∷ []) (reset_gate gate)).locked ≡ false
run_gate-early_run = run_gate-early whole first_only (seen ∷ seen ∷ []) gate (omega arith)

locks_third : (run_gate whole first_only (seen ∷ seen ∷ seen ∷ []) gate).locked ≡ true
unfolding run_gate update_gate tracked associate_all associate nearest
locks_third = refl

abbrev locked_gate : PersistenceGate
locked_gate = record gate { locked = true; lx = 10; ly = 10 }

run_gate-released_example :
    ((j : ℕ)
      → j ≤ 2
      → let g' = run_gate whole first_only (replicate j []) locked_gate in
        (g'.locked ≡ true) × (g'.lx ≡ 10) × (g'.ly ≡ 10))
    × (let g' = run_gate whole first_only (replicate (suc 2) []) locked_gate in
        (g'.locked ≡ false) × (g'.tracks ≡ []))
run_gate-released_example = run_gate-released whole first_only 2 locked_gate refl refl
