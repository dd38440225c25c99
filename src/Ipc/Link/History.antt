-- ===== src/Ipc/Link/History.antt =====
-- Histories of render and create on one segment (gst/nvmmsink/gstnvmmsink.cpp,
-- gst/nvmmappsrc/gstnvmmappsrc.cpp).
use gst_nvmm_cpp.Common.{ℕ, ◌+◌, ◌%◌, ◌^◌, ◌<◌, ◌≡◌, inl, inr, Bool, true, set, arith, Bool-cases}
use gst_nvmm_cpp.Common.Int.{negsuc}
use gst_nvmm_cpp.Ipc.Protocol.{Segment}
use gst_nvmm_cpp.Ipc.Sink.State.{Sink}
use gst_nvmm_cpp.Ipc.Sink.Render.{flow_ok, Frame, render, render_into, set_refs}
use gst_nvmm_cpp.Ipc.AppSrc.Ring.{held}
use gst_nvmm_cpp.Ipc.Link.Starvation.{scan_finds}
use gst_nvmm_cpp.Ipc.Link.World.{
  World, after_render, Step, rendered, created, Reach, here, next, LinkInv, render_found,
  render_other, refs-render_into, render_into-Ready, relock-Books,
}
use gst_nvmm_cpp.Ipc.Link.Calls.{create-Books}

pub render-LinkInv :
    (deepstream : Bool) (frame : Frame) (w : World)
    → LinkInv w
    → LinkInv (after_render deepstream frame w)
render-LinkInv deepstream frame w v = elim (Bool-cases frame.nvmm) [
  | inr no_nvmm ↦
      rw (render_other deepstream frame w.sink w.seg no_nvmm)
        (record { ready = v.ready; books = v.books })
  | inl nvmm ↦
      let (t, lt, e, z) =
        scan_finds w.sink.write_idx w.sink.pool_size w.src.release_ring w.seg.header.ref_counts
          v.books.full v.ready.low v.ready.high v.books.accounts v.books.unlocked in
      rw (render_found deepstream frame w.sink w.seg t _ v.ready nvmm e) (record {
        ready = render_into-Ready deepstream frame t w.sink _ v.ready;
        books =
            rw
              (refs-render_into deepstream frame t w.sink
                (set_refs (set w.seg.header.ref_counts t (negsuc 0)) w.seg))
              (relock-Books w.src.release_ring w.src.ring_head t w.seg.header.ref_counts z v.books);
      })
]

-- Every call of either side keeps the counters equal to the references held, no slot locked, the
-- ring at twelve entries and the pool allocated.
pub Step-LinkInv : {w w' : World} → Step w w' → LinkInv w → LinkInv w'
Step-LinkInv (rendered w deepstream frame) v = render-LinkInv deepstream frame w v
Step-LinkInv (created w flushing) v = record {
  ready = v.ready;
  books = create-Books flushing w.src w.seg v.books;
}

Reach-LinkInv : {w w' : World} → LinkInv w → Reach w w' → LinkInv w'
Reach-LinkInv v here = v
Reach-LinkInv v (next r st) = Step-LinkInv st (Reach-LinkInv v r)

-- What a successful render leaves in the header.
pub published :
    (deepstream : Bool) (frame : Frame) (t : ℕ) (s : Sink) (seg : Segment)
    → frame.transformed ≡ true
    → let (flow, s', seg') = render_into deepstream frame t s seg in
      (flow ≡ flow_ok)
      × (seg'.header.write_idx ≡ t)
      × (seg'.header.frame_number ≡ s.frame_number)
      × (seg'.header.timestamp_ns ≡ frame.pts)
      × (seg'.header.ready ≡ 1)
      × (s'.frame_number ≡ (s.frame_number + 1) % 2 ^ 64)
unfolding render_into
published deepstream frame t s seg h = ground arith

-- With 13 to 16 slots and one reader no history of calls makes the writer drop a frame: after it,
-- an NVMM buffer that the hardware can copy is published, in a slot on which the reader holds no
-- reference.
pub history_never_starves :
    {w w' : World} (deepstream : Bool) (frame : Frame)
    → LinkInv w
    → Reach w w'
    → frame.nvmm ≡ true
    → frame.transformed ≡ true
    → let (flow, s, seg) = render deepstream frame w'.sink w'.seg in
      (flow ≡ flow_ok)
      × (seg.header.write_idx < w'.sink.pool_size)
      × (held seg.header.write_idx w'.src.release_ring ≡ 0)
      × (seg.header.frame_number ≡ w'.sink.frame_number)
      × (seg.header.timestamp_ns ≡ frame.pts)
      × (seg.header.ready ≡ 1)
      × (s.frame_number ≡ (w'.sink.frame_number + 1) % 2 ^ 64)
history_never_starves {w' = w'} deepstream frame start r nvmm ok =
    let v = Reach-LinkInv start r in
    let (t, lt, e, z) =
      scan_finds w'.sink.write_idx w'.sink.pool_size w'.src.release_ring w'.seg.header.ref_counts
        v.books.full v.ready.low v.ready.high v.books.accounts v.books.unlocked in
    rw (render_found deepstream frame w'.sink w'.seg t _ v.ready nvmm e) (
      let p =
        published deepstream frame t w'.sink
          (set_refs (set w'.seg.header.ref_counts t (negsuc 0)) w'.seg) ok in
      (p.0, rw (p.1) lt, rw (p.1) z, p.2, p.3, p.4, p.5))
