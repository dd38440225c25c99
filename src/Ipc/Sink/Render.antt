-- ===== src/Ipc/Sink/Render.antt =====
-- gst/nvmmsink/gstnvmmsink.cpp: render, called for each buffer.
use gst_nvmm_cpp.Common.{
  ℕ, zero, suc, ◌+◌, ◌%◌, ◌^◌, List, Option, none, some, Bool, true, false, set, get_or,
  if◌then◌else◌, ◌&&◌,
}
use gst_nvmm_cpp.Common.Int.{ℤ, pos, negsuc, eq_ℤ}
use gst_nvmm_cpp.Ipc.Protocol.{Segment, FrameMeta}
use gst_nvmm_cpp.DetMeta.{NvBatch, frame_meta_from_nvds}
use gst_nvmm_cpp.Ipc.Sink.State.{Sink}

pub data Flow : Type 0 where
  flow_ok flow_error flow_flushing flow_eos : Flow

abbrev pub blank_meta : FrameMeta
blank_meta = record {
  frame_number = 0;
  infer_width = 0;
  infer_height = 0;
  num_objects = 0;
  flags = 0;
  objects = List.[];
}

-- `ref_counts[i]`
abbrev pub ref_count : List ℤ → ℕ → ℤ
ref_count refs i = get_or refs i (pos 0)

-- __sync_bool_compare_and_swap(&ref_counts[i], 0, -1)
unfoldable pub try_lock : List ℤ → ℕ → Bool × List ℤ
try_lock refs i =
    if eq_ℤ (ref_count refs i) (pos 0) then (true, set refs i (negsuc 0)) else (false, refs)

-- The search for a free slot: `k` rounds are left, and this one is `i`.
unfoldable pub scan : ℕ → ℕ → ℕ → ℕ → List ℤ → Option ℕ × List ℤ
unfolding try_lock
scan write_idx pool_size zero i refs = (none, refs)
scan write_idx pool_size (suc k) i refs =
    let idx = (write_idx + 1 + i) % pool_size in
    let (locked, refs') = try_lock refs idx in
    elim locked [ true ↦ (some idx, refs') | false ↦ scan write_idx pool_size k (i + 1) refs' ]

-- One buffer: whether it is NVMM memory, its DeepStream batch and its time stamp, and whether
-- NvBufSurfTransform succeeds.
pub record Frame : Type 0 where
  pub nvmm : Bool
  pub batch : Option NvBatch
  pub pts : ℕ
  pub transformed : Bool

abbrev pub set_refs : List ℤ → Segment → Segment
set_refs refs seg = record seg { header = record (seg.header) { ref_counts = refs } }

-- The metadata of slot `target`, which is written after the slot's lock is released.
unfoldable pub write_meta : Bool → Sink → ℕ → Frame → Segment → Segment
write_meta deepstream s target frame seg =
    if deepstream && s.meta_active
    then record seg {
      metas =
          set seg.metas target
            (frame_meta_from_nvds frame.batch 0 s.video_info.width s.video_info.height
              s.frame_number (get_or seg.metas target blank_meta)).1;
    }
    else seg

-- The header says which slot is new; `frame_number` is 64 bits wide.
unfoldable pub publish : Sink → ℕ → Frame → Segment → Sink × Segment
publish s target frame seg = (
  record s { frame_number = (s.frame_number + 1) % 2 ^ 64 },
  record seg {
    header = record (seg.header) {
      write_idx = target;
      timestamp_ns = frame.pts;
      frame_number = s.frame_number;
      ready = 1;
    };
  },
)

-- What is left to do with the slot that the search locked.
unfoldable pub render_into : Bool → Frame → ℕ → Sink → Segment → Flow × Sink × Segment
unfolding write_meta publish
render_into deepstream frame target s seg =
    let unlocked : Segment = set_refs (set seg.header.ref_counts target (pos 0)) seg in
    if frame.transformed
    then (let (s', seg') = publish s target frame (write_meta deepstream s target frame unlocked) in
        (flow_ok, s', seg'))
    else (flow_error, s, unlocked)

-- gst_nvmm_sink_render
unfoldable pub render : Bool → Frame → Sink → Segment → Flow × Sink × Segment
render deepstream frame s seg = elim s.shm_ptr [
  | none ↦ (flow_error, s, seg)
  | some p ↦
      if s.pool_allocated && frame.nvmm
      then (let (target, refs) = scan s.write_idx s.pool_size s.pool_size 0 seg.header.ref_counts in
          elim target [
            | none ↦ (flow_ok, s, seg)
            | some t ↦ render_into deepstream frame t s (set_refs refs seg)
          ])
      else (flow_error, s, seg)
]
