-- ===== src/Ipc/Link/Slots.antt =====
-- Which slot render takes, when it drops a frame, and what the reader's stop gives back.
use native.Mathlib.Nat.{mod-lt, mod-eq_of_lt}
use gst_nvmm_cpp.Common.{
  ℕ, suc, ◌+◌, ◌%◌, ◌≤◌, ◌<◌, ◌≡◌, ◌≢◌, refl, ap, ◌∙◌, sym, inl, inr, List, [], ◌∷◌, Option, none,
  some, Bool, true, set, length, arith, if◌then◌else◌, ◌==◌, subst, Bool-cases,
}
use gst_nvmm_cpp.Common.Int.{ℤ, pos, negsuc, dec32, dec32-pos}
use gst_nvmm_cpp.Ipc.Protocol.{Segment}
use gst_nvmm_cpp.Ipc.Os.{Os}
use gst_nvmm_cpp.Ipc.Sink.State.{Sink}
use gst_nvmm_cpp.Ipc.Sink.Render.{flow_ok, Frame, ref_count, scan, render, render_into}
use gst_nvmm_cpp.Ipc.Sink.Scan.{slot, Scanned, scan-Scanned, slot_round, scan-first}
use gst_nvmm_cpp.Ipc.AppSrc.State.{AppSrc, RefSlot}
use gst_nvmm_cpp.Ipc.AppSrc.Lifecycle.{drop_ref, cleared, release_all, stop}
use gst_nvmm_cpp.Ipc.AppSrc.Ring.{held, weight, weight-le-one}
use gst_nvmm_cpp.Ipc.Link.Accounts.{ref_count-drop_ref, length-drop_ref}
use gst_nvmm_cpp.Ipc.Link.World.{Ready, render_found}

render_full :
    (deepstream : Bool) (frame : Frame) (s : Sink) (seg : Segment) (refs : List ℤ)
    → Ready s
    → frame.nvmm ≡ true
    → scan s.write_idx s.pool_size s.pool_size 0 seg.header.ref_counts ≡ (none, refs)
    → render deepstream frame s seg ≡ (flow_ok, s, seg)
unfolding render
render_full deepstream frame s seg refs r nv e = ground (arith, r.mapped, r.allocated, nv, e)

-- A ready producer drops an NVMM buffer, with OK and no change, when each of its slots is taken; and
-- if one of its slots is free and the copy succeeds, the buffer is published in a slot that was
-- free.
pub render_drops :
    (deepstream : Bool) (frame : Frame) (s : Sink) (seg : Segment)
    → Ready s
    → frame.nvmm ≡ true
    → frame.transformed ≡ true
    → (((i : ℕ) → i < s.pool_size → ref_count seg.header.ref_counts i ≢ pos 0)
        → render deepstream frame s seg ≡ (flow_ok, s, seg))
      × ((i : ℕ)
          → i < s.pool_size
          → ref_count seg.header.ref_counts i ≡ pos 0
          → let (flow, s', seg') = render deepstream frame s seg in
            (flow ≡ flow_ok)
            × (seg'.header.frame_number ≡ s.frame_number)
            × (seg'.header.ready ≡ 1)
            × (ref_count seg.header.ref_counts seg'.header.write_idx ≡ pos 0))
unfolding render_into
render_drops deepstream frame s seg r nv ok = (
  λ busy.
      dropped busy (scan s.write_idx s.pool_size s.pool_size 0 seg.header.ref_counts) refl
        (scan-Scanned s.write_idx s.pool_size s.pool_size 0 seg.header.ref_counts),
  λ i lt free.
      taken i lt free (scan s.write_idx s.pool_size s.pool_size 0 seg.header.ref_counts) refl
        (scan-Scanned s.write_idx s.pool_size s.pool_size 0 seg.header.ref_counts),
)
  where
    n : ℕ
    n = s.pool_size

    dropped :
        ((i : ℕ) → i < s.pool_size → ref_count seg.header.ref_counts i ≢ pos 0)
        → (out : Option ℕ × List ℤ)
        → scan s.write_idx s.pool_size s.pool_size 0 seg.header.ref_counts ≡ out
        → Scanned s.write_idx s.pool_size s.pool_size 0 seg.header.ref_counts out
        → render deepstream frame s seg ≡ (flow_ok, s, seg)
    dropped busy out e (inl (q, _)) = render_full deepstream frame s seg _ r nv (e ∙ q)
    dropped busy out e (inr (j, _, lt, q, z, _)) =
        absurd (busy (slot s.write_idx s.pool_size j) (mod-lt _ (omega arith)) z)

    taken :
        (i : ℕ)
        → i < s.pool_size
        → ref_count seg.header.ref_counts i ≡ pos 0
        → (out : Option ℕ × List ℤ)
        → scan s.write_idx s.pool_size s.pool_size 0 seg.header.ref_counts ≡ out
        → Scanned s.write_idx s.pool_size s.pool_size 0 seg.header.ref_counts out
        → let (flow, s', seg') = render deepstream frame s seg in
          (flow ≡ flow_ok)
          × (seg'.header.frame_number ≡ s.frame_number)
          × (seg'.header.ready ≡ 1)
          × (ref_count seg.header.ref_counts seg'.header.write_idx ≡ pos 0)
    taken i lt free out e (inl (q, busy)) =
        let (j, jlt, at) = slot_round s.write_idx s.pool_size i lt in
        absurd (
          busy j (omega arith) (omega arith)
            (subst (λ x. ref_count seg.header.ref_counts x ≡ pos 0) (sym at) free))
    taken i lt free out e (inr (j, _, _, q, z, _)) =
        rw (render_found deepstream frame s seg (slot s.write_idx s.pool_size j) _ r nv (e ∙ q))
          (ground (arith, z, ok))

-- Render never moves the index from which it starts its search, so while slot 1 is free it is the
-- slot of every frame, the one just published included.
pub render_same_slot :
    (deepstream : Bool) (frame : Frame) (s : Sink) (seg : Segment)
    → Ready s
    → s.write_idx ≡ 0
    → frame.nvmm ≡ true
    → frame.transformed ≡ true
    → ref_count seg.header.ref_counts 1 ≡ pos 0
    → let (flow, s', seg') = render deepstream frame s seg in
      (seg'.header.write_idx ≡ 1)
      × (s'.write_idx ≡ 0)
      × (seg'.header.ref_counts ≡ set (set seg.header.ref_counts 1 (negsuc 0)) 1 (pos 0))
unfolding render_into
render_same_slot deepstream frame s seg r w nv ok free =
    rw
      (render_found deepstream frame s seg 1 (set seg.header.ref_counts 1 (negsuc 0)) r nv (
        subst
          (λ t.
            scan s.write_idx s.pool_size s.pool_size 0 seg.header.ref_counts
            ≡ (some t, set seg.header.ref_counts t (negsuc 0)))
          one
          (scan-first s.write_idx s.pool_size s.pool_size seg.header.ref_counts
            (omega (arith, r.low))
            (subst (λ t. ref_count seg.header.ref_counts t ≡ pos 0) (sym one) free))))
      (ground (arith, ok, w))
  where
    one : slot s.write_idx s.pool_size 0 ≡ 1
    one =
        ap (λ x. x % s.pool_size) {x = s.write_idx + 1 + 0} {y = 1} (omega (arith, w))
        ∙ mod-eq_of_lt (omega (arith, r.low))

dropped_value :
    (w rest others : ℕ) (v : ℤ)
    → w ≤ 1
    → v ≡ pos (others + (w + rest))
    → (if w == 1 then dec32 v else v) ≡ pos (others + rest)
dropped_value w rest others v h e = elim (Bool-cases (w == 1)) [
  | inl one ↦ rw (one, e, shift (ground arith)) (dec32-pos (others + rest))
  | inr other ↦ rw (other, e) (ground arith)
]
  where
    shift : w ≡ 1 → others + (w + rest) ≡ suc (others + rest)
    shift h = omega arith

weight-cleared : (i : ℕ) (r : RefSlot) → weight i (cleared r) ≡ 0
weight-cleared i r = ground arith

release_all_lem :
    (ring : List RefSlot) (refs : List ℤ) (i others : ℕ)
    → i < length refs
    → ref_count refs i ≡ pos (others + held i ring)
    → (ref_count (release_all ring refs).1 i ≡ pos others) × (held i (release_all ring refs).0 ≡ 0)
unfolding release_all
release_all_lem [] refs i others h e = (e ∙ ap pos (omega arith), refl)
release_all_lem (r ∷ ring) refs i others h e =
    let rest =
      release_all_lem ring (drop_ref r refs) i others (omega (arith, length-drop_ref r refs)) (
        ref_count-drop_ref r refs i h
        ∙ dropped_value (weight i r) (held i ring) others _ (weight-le-one i r) e) in
    (rest.0, omega (arith, rest.1, weight-cleared i r))

-- The reader's stop takes back its references and no others: a counter at `others` references and
-- those of the ring is left at `others`, and the ring holds nothing.
pub stop_releases :
    (s : AppSrc) (seg : Segment) (os : Os) (i others : ℕ)
    → i < length seg.header.ref_counts
    → ref_count seg.header.ref_counts i ≡ pos (others + held i s.release_ring)
    → let (s', seg', os') = stop s seg os in
      (ref_count seg'.header.ref_counts i ≡ pos others) × (held i s'.release_ring ≡ 0)
unfolding stop
stop_releases s seg os i others h e =
    release_all_lem s.release_ring seg.header.ref_counts i others h e
