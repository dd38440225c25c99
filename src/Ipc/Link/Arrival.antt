-- ===== src/Ipc/Link/Arrival.antt =====
-- From one render to the next create (gst/nvmmsink/gstnvmmsink.cpp, gst/nvmmappsrc/gstnvmmappsrc.cpp).
use gst_nvmm_cpp.Common.{
  ℕ, ◌≤◌, ◌<◌, ◌≡◌, ◌≢◌, ap, ◌∙◌, none, some, Bool, true, false, ◌&&◌, set, get_or, length,
  get_or-set_self, arith, if◌then◌else◌,
}
use gst_nvmm_cpp.Common.Int.{negsuc}
use gst_nvmm_cpp.Ipc.Protocol.{Segment, FrameMeta, pool_capacity, shm_magic}
use gst_nvmm_cpp.DetMeta.{add_det_meta, frame_meta_from_nvds}
use gst_nvmm_cpp.Ipc.Sink.State.{Sink}
use gst_nvmm_cpp.Ipc.Sink.Render.{
  flow_ok, flow_eos, blank_meta, Frame, render, render_into, set_refs,
}
use gst_nvmm_cpp.Ipc.AppSrc.State.{no_ref}
use gst_nvmm_cpp.Ipc.AppSrc.Ring.{held}
use gst_nvmm_cpp.Ipc.AppSrc.Create.{Around, is_new, create}
use gst_nvmm_cpp.Ipc.Link.Starvation.{scan_finds}
use gst_nvmm_cpp.Ipc.Link.World.{World, alone, LinkInv, render_found}
use gst_nvmm_cpp.Ipc.Link.History.{render-LinkInv, published}
use gst_nvmm_cpp.Ipc.Link.Delivery.{create_delivers, create_gives_up}

-- The record of slot `t` once the frame stands in it.
abbrev pub record_of : Bool → Sink → Frame → Segment → ℕ → FrameMeta
record_of deepstream s frame seg t =
    let before = get_or seg.metas t blank_meta in
    if deepstream && s.meta_active
    then (frame_meta_from_nvds frame.batch 0 s.video_info.width s.video_info.height s.frame_number
        before).1
    else before

render_into_keeps :
    (deepstream : Bool) (frame : Frame) (t : ℕ) (s : Sink) (seg : Segment)
    → frame.transformed ≡ true
    → t < length seg.metas
    → let (flow, s', seg') = render_into deepstream frame t s seg in
      (seg'.header.magic ≡ seg.header.magic)
      × (get_or seg'.metas t blank_meta ≡ record_of deepstream s frame seg t)
unfolding render_into
render_into_keeps deepstream frame t s seg ok lt = ground (
  arith,
  get_or-set_self seg.metas t
      (frame_meta_from_nvds frame.batch 0 s.video_info.width s.video_info.height s.frame_number
        (get_or seg.metas t blank_meta)).1
      blank_meta lt,
)

-- What render leaves in the segment, with the frame in slot `t`.
record Shown (deepstream : Bool) (frame : Frame) (w : World) (t : ℕ) (seg : Segment) : Type 0 where
  index : seg.header.write_idx ≡ t
  number : seg.header.frame_number ≡ w.sink.frame_number
  pts : seg.header.timestamp_ns ≡ frame.pts
  ready : seg.header.ready ≡ 1
  magic : seg.header.magic ≡ w.seg.header.magic
  meta : get_or seg.metas t blank_meta ≡ record_of deepstream w.sink frame w.seg t

render-Shown :
    (deepstream : Bool) (frame : Frame) (w : World)
    → LinkInv w
    → frame.nvmm ≡ true
    → frame.transformed ≡ true
    → pool_capacity ≤ length w.seg.metas
    → (t : ℕ) × (t < w.sink.pool_size)
      × (held t w.src.release_ring ≡ 0)
      × ((render deepstream frame w.sink w.seg).0 ≡ flow_ok)
      × Shown deepstream frame w t (render deepstream frame w.sink w.seg).2
render-Shown deepstream frame w v nvmm ok room =
    let (t, lt, e, z) =
      scan_finds w.sink.write_idx w.sink.pool_size w.src.release_ring w.seg.header.ref_counts
        v.books.full v.ready.low v.ready.high v.books.accounts v.books.unlocked in
    let locked = set_refs (set w.seg.header.ref_counts t (negsuc 0)) w.seg in
    let p = published deepstream frame t w.sink locked ok in
    let k =
      render_into_keeps deepstream frame t w.sink locked ok
        (omega (arith, lt, room, v.ready.high)) in
    let r = render deepstream frame w.sink w.seg in
    let shown : (r.0 ≡ flow_ok) × Shown deepstream frame w t r.2 =
      rw (render_found deepstream frame w.sink w.seg t _ v.ready nvmm e) (
        p.0,
        record { index = p.1; number = p.2; pts = p.3; ready = p.4; magic = k.0; meta = k.1 },
      ) in
    (t, lt, z, shown.0, shown.1)

Shown-is_new :
    (deepstream : Bool) (frame : Frame) (w : World) (t : ℕ) (seg : Segment)
    → w.src.last_frame_number ≢ w.sink.frame_number
    → Shown deepstream frame w t seg
    → is_new w.src.last_frame_number seg.header ≡ true
Shown-is_new deepstream frame w t seg unseen s = ground (arith, s.ready, s.number)

-- A producer and a reader between two calls. The reader is mapped on the producer's segment, which has its
-- magic number and a record for each slot, has the producer's pool size, and did not see the frame's number
-- last. An NVMM buffer that the hardware can copy is rendered, and the reader's next create, whatever other
-- processes do while it waits, hands it out: the surface of a slot of the pool on which the reader held no
-- reference, the frame's time stamp, and, if the reader imports metadata, those of the slot's record, which
-- are the ones collected for the frame if the producer exports them, and those from before if not. The
-- reader's newest reference is on the slot, and its create after that, if nothing else happens, ends with EOS
-- and hands out nothing.
pub create-render :
    (deepstream : Bool) (frame : Frame) (around : Around) (w : World) (p : ℕ)
    → LinkInv w
    → w.src.shm_ptr ≡ some p
    → w.src.pool_size ≡ w.sink.pool_size
    → w.src.last_frame_number ≢ w.sink.frame_number
    → w.seg.header.magic ≡ shm_magic
    → pool_capacity ≤ length w.seg.metas
    → frame.nvmm ≡ true
    → frame.transformed ≡ true
    → let (flow, sink, seg) = render deepstream frame w.sink w.seg in
      let (flow', buffer, src, seg') = create around w.src seg in
      (t : ℕ) × (t < w.sink.pool_size)
      × (held t w.src.release_ring ≡ 0)
      × (flow ≡ flow_ok)
      × (flow' ≡ flow_ok)
      × (buffer
          ≡ some (record {
            surface = get_or w.src.imported_surfaces t none;
            pts = frame.pts;
            det_meta =
                if w.src.meta_available
                then add_det_meta true (record_of deepstream w.sink frame w.seg t)
                else none;
          }))
      × (get_or src.release_ring w.src.ring_head no_ref ≡ record { ptr = some t; active = true })
      × (create (alone (λ i. false)) src seg' ≡ (flow_eos, none, src, seg'))
create-render deepstream frame around w p v mapped size unseen magic room nvmm ok =
    let (t, lt, z, done, s) = render-Shown deepstream frame w v nvmm ok room in
    let seg = (render deepstream frame w.sink w.seg).2 in
    let books = (render-LinkInv deepstream frame w v).books in
    let d =
      create_delivers around w.src seg p mapped books
        (Shown-is_new deepstream frame w t seg unseen s) (s.magic ∙ magic)
        (omega (arith, s.index, size, lt)) in
    let meta = ap (λ k. get_or seg.metas k blank_meta) s.index ∙ s.meta in
    let (flow', buffer, src, seg') = create around w.src seg in
    (
      t,
      lt,
      z,
      done,
      d.0,
      d.1 ∙ λ i. some (record {
        surface = get_or w.src.imported_surfaces (s.index i) none;
        pts = s.pts i;
        det_meta = if w.src.meta_available then add_det_meta true (meta i) else none;
      }),
      d.3 ∙ λ i. record { ptr = some (s.index i); active = true },
      create_gives_up src seg' p d.4 (ground (arith, d.2, d.5)),
    )
