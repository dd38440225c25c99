-- ===== src/DetMeta.antt =====
-- gst/common/nvmm_det_meta.cpp: detections from DeepStream into a wire record, and from a wire
-- record onto a buffer.
pub mod Collect
pub mod Delivery
use Prim.Native.Nat.{bit_or}
use gst_nvmm_cpp.Common.{
  ℕ, ◌+◌, ◌^◌, ◌-◌, ◌≡◌, List, [], ◌∷◌, Option, none, some, Bool, true, false, min, set, take, leb,
  ltb, ◌==◌, if◌then◌else◌,
}
use gst_nvmm_cpp.Common.Int.{ℤ}
use gst_nvmm_cpp.Common.Float.{F32}
use gst_nvmm_cpp.Ipc.Protocol.{
  DetObject, FrameMeta, meta_label_len, meta_max_objects, flag_truncated,
}

-- What the code reads of NvDsObjectMeta, NvDsFrameMeta and NvDsBatchMeta. A list's `data` may be
-- null.
pub record NvObject : Type 0 where
  pub left : F32
  pub top : F32
  pub width : F32
  pub height : F32
  pub class_id : ℤ
  pub confidence : F32
  pub object_id : ℕ
  pub obj_label : Option (List ℕ)

pub record NvFrame : Type 0 where
  pub batch_id : ℕ
  pub obj_meta_list : List (Option NvObject)

abbrev pub NvBatch : Type 0
NvBatch = List (Option NvFrame)

-- g_strlcpy into the label, or an empty label.
unfoldable pub copy_label : Option (List ℕ) → List ℕ
copy_label none = []
copy_label (some lbl) = take (meta_label_len - 1) lbl

unfoldable pub to_det_object : NvObject → DetObject
to_det_object obj = record {
  left = obj.left;
  top = obj.top;
  width = obj.width;
  height = obj.height;
  class_id = obj.class_id;
  confidence = obj.confidence;
  tracker_id = if obj.object_id == 2 ^ 64 - 1 then 0 else obj.object_id;
  label = copy_label obj.obj_label;
}

-- The loop over the objects: `n` of them are written.
unfoldable pub collect : List (Option NvObject) → ℕ → FrameMeta → ℕ × FrameMeta
collect [] n out = (n, out)
collect (none ∷ l) n out =
    if leb meta_max_objects n
    then (n, record out { flags = bit_or out.flags flag_truncated })
    else collect l n out
collect (some obj ∷ l) n out =
    if leb meta_max_objects n
    then (n, record out { flags = bit_or out.flags flag_truncated })
    else collect l (n + 1) (record out { objects = set out.objects n (to_det_object obj) })

unfoldable pub find_frame : ℕ → NvBatch → Option NvFrame
find_frame i [] = none
find_frame i (none ∷ l) = find_frame i l
find_frame i (some fm ∷ l) = if fm.batch_id == i then some fm else find_frame i l

unfoldable pub fill : Option NvFrame → FrameMeta → ℕ × FrameMeta
fill none out = (0, out)
fill (some frame) out =
    let (n, m) = collect frame.obj_meta_list 0 out in (n, record m { num_objects = n })

-- nvmm_frame_meta_from_nvds
unfoldable pub frame_meta_from_nvds : Option NvBatch → ℕ → ℕ → ℕ → ℕ → FrameMeta → ℕ × FrameMeta
frame_meta_from_nvds batch frame_index infer_w infer_h frame_number out =
    let blank : FrameMeta = record out {
      frame_number = frame_number;
      infer_width = infer_w;
      infer_height = infer_h;
      num_objects = 0;
      flags = 0;
    } in
    elim batch [ none ↦ (0, blank) | some b ↦ fill (find_frame frame_index b) blank ]

-- GstNvmmDetMeta, as it stands on a buffer.
pub record BufferMeta : Type 0 where
  pub frame_number : ℕ
  pub infer_width : ℕ
  pub infer_height : ℕ
  pub flags : ℕ
  pub num_objects : ℕ
  pub objects : List DetObject

-- nvmm_det_meta_attach. `room` says whether gst_buffer_add_meta gave a meta; the first `n`
-- objects are copied.
unfoldable pub attach : Bool → ℕ → ℕ → ℕ → ℕ → ℕ → List DetObject → Option BufferMeta
attach room frame_number infer_width infer_height flags n objects =
    if room
    then some (record {
      frame_number = frame_number;
      infer_width = infer_width;
      infer_height = infer_height;
      flags = flags;
      num_objects = n;
      objects = take n objects;
    })
    else none

-- gst_buffer_add_nvmm_det_meta
unfoldable pub add_det_meta : Bool → FrameMeta → Option BufferMeta
add_det_meta room frame =
    let n =
      (if ltb meta_max_objects frame.num_objects then meta_max_objects else frame.num_objects) in
    attach room frame.frame_number frame.infer_width frame.infer_height frame.flags n frame.objects

-- nvmm_det_meta_transform: `none` is FALSE.
unfoldable pub transform_meta : Bool → Bool → BufferMeta → Option BufferMeta
transform_meta is_copy room src =
    if is_copy
    then attach room src.frame_number src.infer_width src.infer_height src.flags src.num_objects
        src.objects
    else none
