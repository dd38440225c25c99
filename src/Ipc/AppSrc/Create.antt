-- ===== src/Ipc/AppSrc/Create.antt =====
-- gst/nvmmappsrc/gstnvmmappsrc.cpp: create, called for each buffer. Other processes change the
-- segment while the element sleeps; finer interleavings are those of Ipc.Race.
use gst_nvmm_cpp.Common.{
  ℕ, zero, suc, ◌+◌, ◌%◌, Option, none, some, Bool, true, set, get_or, leb, ltb, ◌==◌,
  if◌then◌else◌, ◌&&◌, not,
}
use gst_nvmm_cpp.Common.Int.{inc32, is_negative}
use gst_nvmm_cpp.Ipc.Protocol.{Segment, ShmHeader, shm_magic}
use gst_nvmm_cpp.DetMeta.{BufferMeta, add_det_meta}
use gst_nvmm_cpp.Ipc.Sink.Render.{
  Flow, flow_ok, flow_error, flow_flushing, flow_eos, ref_count, set_refs, blank_meta,
}
use gst_nvmm_cpp.Ipc.AppSrc.State.{AppSrc, no_ref, release_delay}
use gst_nvmm_cpp.Ipc.AppSrc.Lifecycle.{drop_ref}

-- What happens around one call: `others k` is what other processes do in the k-th sleep of the wait
-- for a frame, `contenders k` in the k-th sleep of the wait for the writer, and `flushing k` whether
-- the pad is flushing after `k` sleeps.
pub record Around : Type 0 where
  pub others : ℕ → Segment → Segment
  pub flushing : ℕ → Bool
  pub contenders : ℕ → Segment → Segment

pub data Waited : Type 0 where
  arrived flushed timed_out : Waited

abbrev pub is_new : ℕ → ShmHeader → Bool
is_new last h = not (h.ready == 0) && not (h.frame_number == last)

-- The wait for a frame: `k` sleeps are left, `i` were made.
unfoldable pub wait_frame : Around → ℕ → ℕ → ℕ → Segment → Waited × Segment
wait_frame around last zero i seg =
    if is_new last seg.header
    then (arrived, seg)
    else if around.flushing i
    then (flushed, seg)
    else (timed_out, seg)
wait_frame around last (suc k) i seg =
    let later = wait_frame around last k (i + 1) (around.others i seg) in
    if is_new last seg.header
    then (arrived, seg)
    else if around.flushing i
    then (flushed, seg)
    else later

-- The wait for the writer: -1 means that it holds the slot. The index is read again after a sleep. The
-- load and the compare-and-swap are one step: the swap fails only if another process comes in
-- between, and then the round is repeated, without a sleep, on the new value.
unfoldable pub acquire : Around → ℕ → ℕ → ℕ → Segment → Option ℕ × Segment
acquire around zero i idx seg =
    if is_negative (ref_count seg.header.ref_counts idx) then (none, around.contenders i seg) else (
      some idx,
      set_refs (set seg.header.ref_counts idx (inc32 (ref_count seg.header.ref_counts idx))) seg,
    )
acquire around (suc k) i idx seg =
    let slept = around.contenders i seg in
    let later = acquire around k (i + 1) slept.header.write_idx slept in
    if is_negative (ref_count seg.header.ref_counts idx) then later else (
      some idx,
      set_refs (set seg.header.ref_counts idx (inc32 (ref_count seg.header.ref_counts idx))) seg,
    )

-- The release ring: the oldest reference is dropped and `idx` takes its place.
unfoldable pub rotate : ℕ → AppSrc → Segment → AppSrc × Segment
rotate idx s seg = (
  record s {
    release_ring = set s.release_ring s.ring_head (record { ptr = some idx; active = true });
    ring_head = (s.ring_head + 1) % release_delay;
  },
  set_refs (drop_ref (get_or s.release_ring s.ring_head no_ref) seg.header.ref_counts) seg,
)

-- The buffer that is pushed.
pub record Pushed : Type 0 where
  pub surface : Option ℕ
  pub pts : ℕ
  pub det_meta : Option BufferMeta

abbrev pub set_pad_caps : ShmHeader → AppSrc → AppSrc
set_pad_caps h s = elim s.caps [
  | some c ↦ s
  | none ↦
      if ltb 0 h.width && ltb 0 h.height
      then record s { caps = some (h.format, h.width, h.height) }
      else s
]

-- `create` once slot `idx` is held.
unfoldable pub deliver : ℕ → AppSrc → Segment → Option Pushed × AppSrc × Segment
deliver idx s seg =
    let (s', seg') = rotate idx s seg in
    (
      some (record {
        surface = get_or s'.imported_surfaces idx none;
        pts = seg'.header.timestamp_ns;
        det_meta =
            if s'.meta_available
            then add_det_meta true (get_or seg'.metas idx blank_meta)
            else none;
      }),
      record s' { last_frame_number = seg'.header.frame_number },
      seg',
    )

abbrev pub Answer : Type 0
Answer = Flow × Option Pushed × AppSrc × Segment

-- `create` once a frame is there.
unfoldable pub create_frame : Around → AppSrc → Segment → Answer
create_frame around s seg =
    if seg.header.magic == shm_magic
    then (let s' : AppSrc = set_pad_caps seg.header s in
        if leb s'.pool_size seg.header.write_idx
        then (flow_error, none, s', seg)
        else (let (held, seg') = acquire around 1000 0 seg.header.write_idx seg in
            elim held [
              | none ↦ (flow_error, none, s', seg')
              | some idx ↦
                  let (buffer, t, seg'') = deliver idx s' seg' in (flow_ok, buffer, t, seg'')
            ]))
    else (flow_error, none, s, seg)

-- gst_nvmm_app_src_create
unfoldable pub create : Around → AppSrc → Segment → Answer
create around s seg = elim s.shm_ptr [
  | none ↦ (flow_error, none, s, seg)
  | some p ↦
      let (w, seg') = wait_frame around s.last_frame_number 2000 0 seg in
      elim w [
        | arrived ↦ create_frame around s seg'
        | flushed ↦ (flow_flushing, none, s, seg')
        | timed_out ↦ (flow_eos, none, s, seg')
      ]
]
