-- ===== src/DetMeta/Delivery.antt =====
-- From the objects of a DeepStream frame to the meta on the reader's buffer
-- (gst/common/nvmm_det_meta.cpp, both directions).
use Prim.Native.Nat.{bit_or}
use gst_nvmm_cpp.Common.{
  ℕ, ◌+◌, ◌≤◌, ◌<◌, ◌≡◌, refl, ◌∙◌, List, [], ◌∷◌, Option, none, some, true, false, min, set, take,
  length, ltb, if◌then◌else◌, arith, take-take,
}
use gst_nvmm_cpp.Ipc.Protocol.{FrameMeta, meta_max_objects, flag_truncated}
use gst_nvmm_cpp.DetMeta.{
  NvObject, NvFrame, NvBatch, BufferMeta, to_det_object, collect, find_frame, fill,
  frame_meta_from_nvds, attach, add_det_meta, transform_meta,
}
use gst_nvmm_cpp.DetMeta.Collect.{collect-Collected, present, wire}

-- With the frame found, the call returns the number of objects that are there, 256 at most, writes
-- that number and the frame's header, and the first objects of the record are those of the frame in
-- order, each converted.
pub frame_meta_objects :
    (b : NvBatch) (i w h fn : ℕ) (out : FrameMeta) (frame : NvFrame)
    → length out.objects ≡ meta_max_objects
    → find_frame i b ≡ some frame
    → let (n, m) = frame_meta_from_nvds (some b) i w h fn out in
      (n ≡ min meta_max_objects (length (present frame.obj_meta_list)))
      × (m.num_objects ≡ n)
      × (take n m.objects ≡ take meta_max_objects (wire frame.obj_meta_list))
      × (m.frame_number ≡ fn)
      × (m.infer_width ≡ w)
      × (m.infer_height ≡ h)
      × (length m.objects ≡ meta_max_objects)
unfolding frame_meta_from_nvds fill present
frame_meta_objects b i w h fn out frame room e =
    rw (e, fill)
      (let c =
          collect-Collected frame.obj_meta_list 0
            (record out {
              frame_number = fn;
              infer_width = w;
              infer_height = h;
              num_objects = 0;
              flags = 0;
            })
            (omega arith) room in
        (
          omega (arith, c.count),
          refl,
          c.objects,
          c.header.0,
          c.header.1,
          c.header.2,
          c.room ∙ room,
        ))

-- Without a batch, or with no frame of that index, the record is empty and its flags are cleared.
pub frame_meta_empty :
    (batch : Option NvBatch) (i w h fn : ℕ) (out : FrameMeta)
    → ((b : NvBatch) → batch ≡ some b → find_frame i b ≡ none)
    → let (n, m) = frame_meta_from_nvds batch i w h fn out in
      (n ≡ 0) × (m.num_objects ≡ 0) × (m.flags ≡ 0) × (m.frame_number ≡ fn)
unfolding frame_meta_from_nvds fill present
frame_meta_empty none i w h fn out miss = (refl, refl, refl, refl)
frame_meta_empty (some b) i w h fn out miss = rw (miss b refl, fill) (refl, refl, refl, refl)

collect-flags_full :
    (l : List (Option NvObject)) (n : ℕ) (out : FrameMeta)
    → n ≤ meta_max_objects
    → meta_max_objects < n + length (present l)
    → (collect l n out).1.flags ≡ bit_or out.flags flag_truncated
unfolding collect present
collect-flags_full [] n out h more = absurd (omega arith)
collect-flags_full (none ∷ l) n out h more = ground (arith, collect-flags_full l n out)
collect-flags_full (some obj ∷ l) n out h more = ground (
  arith,
  collect-flags_full l (n + 1) (record out { objects = set out.objects n (to_det_object obj) }),
)

collect-flags_room :
    (l : List (Option NvObject)) (n : ℕ) (out : FrameMeta)
    → n + length l ≤ meta_max_objects
    → (collect l n out).1.flags ≡ out.flags
unfolding collect
collect-flags_room [] n out h = refl
collect-flags_room (none ∷ l) n out h = ground (arith, collect-flags_room l n out)
collect-flags_room (some obj ∷ l) n out h = ground (
  arith,
  collect-flags_room l (n + 1) (record out { objects = set out.objects n (to_det_object obj) }),
)

-- The TRUNCATED flag is set when a frame has more than 256 objects, and it is clear when the list
-- of the frame, null entries included, has 256 entries at most.
pub truncated_flag :
    (b : NvBatch) (i w h fn : ℕ) (out : FrameMeta) (frame : NvFrame)
    → find_frame i b ≡ some frame
    → let (n, m) = frame_meta_from_nvds (some b) i w h fn out in
      (meta_max_objects < length (present frame.obj_meta_list) → m.flags ≡ flag_truncated)
      × (length frame.obj_meta_list ≤ meta_max_objects → m.flags ≡ 0)
unfolding frame_meta_from_nvds fill present
truncated_flag b i w h fn out frame e =
    rw (e, fill)
      (
        λ more. collect-flags_full frame.obj_meta_list 0 _ (omega arith) (omega arith),
        λ room. collect-flags_room frame.obj_meta_list 0 _ (omega arith),
      )

-- What the producer collects is what the consumer's buffer carries: at most 256 converted objects in
-- order, their number, the frame number and the size of the inference frame.
pub det_meta_delivered :
    (b : NvBatch) (i w h fn : ℕ) (out : FrameMeta) (frame : NvFrame)
    → length out.objects ≡ meta_max_objects
    → find_frame i b ≡ some frame
    → let m = (frame_meta_from_nvds (some b) i w h fn out).1 in
      add_det_meta true m
      ≡ some (record {
        frame_number = fn;
        infer_width = w;
        infer_height = h;
        flags = m.flags;
        num_objects = min meta_max_objects (length (present frame.obj_meta_list));
        objects = take meta_max_objects (wire frame.obj_meta_list);
      })
unfolding add_det_meta attach
det_meta_delivered b i w h fn out frame room e =
    let f = frame_meta_objects b i w h fn out frame room e in ground (arith, f)

-- A straight copy of a buffer keeps its meta, as it was attached; any other transform drops it.
pub transform-add_det_meta :
    (frame : FrameMeta) (m : BufferMeta)
    → length frame.objects ≡ meta_max_objects
    → add_det_meta true frame ≡ some m
    → (transform_meta true true m ≡ some m) × (transform_meta false true m ≡ none)
unfolding add_det_meta attach transform_meta
transform-add_det_meta frame m room e =
    let n =
      (if ltb meta_max_objects frame.num_objects then meta_max_objects else frame.num_objects) in
    ground (arith, e, take-take n n frame.objects (omega arith))
