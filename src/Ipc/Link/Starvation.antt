-- ===== src/Ipc/Link/Starvation.antt =====
-- The pool of gst/nvmmsink/gstnvmmsink.cpp against the release delay of
-- gst/nvmmappsrc/gstnvmmappsrc.cpp.
use native.Mathlib.Nat.{mod-lt}
use gst_nvmm_cpp.Common.{
  ℕ, ◌+◌, ◌≤◌, ◌<◌, ◌≡◌, ◌≢◌, ap, ◌∙◌, sym, inl, inr, List, Option, some, set, length, arith, subst,
}
use gst_nvmm_cpp.Common.Int.{ℤ, pos, negsuc}
use gst_nvmm_cpp.Ipc.Protocol.{pool_capacity, min_pool_size}
use gst_nvmm_cpp.Ipc.Sink.Render.{ref_count, scan}
use gst_nvmm_cpp.Ipc.Sink.Scan.{slot, Scanned, scan-Scanned, slot_round}
use gst_nvmm_cpp.Ipc.AppSrc.State.{RefSlot, release_delay}
use gst_nvmm_cpp.Ipc.AppSrc.Ring.{held, free_slot}
use gst_nvmm_cpp.Ipc.Link.Accounts.{Accounts}

-- No slot is locked: between two calls of render.
abbrev pub Unlocked : List ℤ → Type 0
Unlocked refs = (i : ℕ) → i < pool_capacity → ref_count refs i ≢ negsuc 0

pub value-Unlocked :
    (ring : List RefSlot) (refs : List ℤ) (i : ℕ)
    → Accounts ring refs
    → Unlocked refs
    → i < pool_capacity
    → ref_count refs i ≡ pos (held i ring)
value-Unlocked ring refs i a u h = elim (a.slots i h) [ inl e ↦ e | inr (e, z) ↦ absurd (u i h e) ]

pos_zero : {n : ℕ} → pos n ≡ pos 0 → n ≡ 0
pos_zero e = ground arith

-- Whatever the ring of twelve references holds, the search over 13 to 16 slots takes a slot that the
-- ring does not hold, and locks that slot alone.
pub scan_finds :
    (w n : ℕ) (ring : List RefSlot) (refs : List ℤ)
    → length ring ≡ release_delay
    → min_pool_size ≤ n
    → n ≤ pool_capacity
    → Accounts ring refs
    → Unlocked refs
    → (t : ℕ) × (t < n) × (scan w n n 0 refs ≡ (some t, set refs t (negsuc 0))) × (held t ring ≡ 0)
scan_finds w n ring refs len lo hi a u = found (scan w n n 0 refs) (scan-Scanned w n n 0 refs)
  where
    found :
        (out : Option ℕ × List ℤ)
        → Scanned w n n 0 refs out
        → (t : ℕ) × (t < n) × (out ≡ (some t, set refs t (negsuc 0))) × (held t ring ≡ 0)
    found out (inl (e, busy)) =
        let (i, lt, z) = free_slot n ring (omega arith) in
        let (j, jlt, at) = slot_round w n i lt in
        absurd (
          busy j (omega arith) (omega arith) (
            subst (λ x. ref_count refs x ≡ pos 0) (sym at)
              (value-Unlocked ring refs i a u (omega arith) ∙ ap pos z)))
    found out (inr (j, _, _, e, z, _)) = (
      slot w n j,
      below,
      e,
      pos_zero (sym (value-Unlocked ring refs (slot w n j) a u (omega arith)) ∙ z),
    )
      where
        below : slot w n j < n
        below = mod-lt (w + 1 + j) (omega arith)
