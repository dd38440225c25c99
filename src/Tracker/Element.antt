-- ===== src/Tracker/Element.antt =====
-- gst/nvmmtracker/gstnvmmtracker.cpp: the element around the tracker. `max_age` is not negative, as the property
-- has it.
use gst_nvmm_cpp.Common.{
  ℕ, zero, suc, List, [], ◌∷◌, ◌++◌, Option, none, some, take, ◌==◌, if◌then◌else◌,
}
use gst_nvmm_cpp.Common.Float.{F32, FloatOps}
use gst_nvmm_cpp.DetMeta.{BufferMeta}
use gst_nvmm_cpp.Gate.Element.{F64}
use gst_nvmm_cpp.Tracker.{Tracker, update}

-- `tracker` is null or a tracker.
pub record TrackerElement : Type 0 where
  pub iou_threshold : F64
  pub max_age : ℕ
  pub tracker : Option Tracker

-- gst_nvmm_tracker_init
abbrev pub init : TrackerElement
init = record { iou_threshold = 0x3FD3333333333333; max_age = 30; tracker = none }

pub data Property : Type 0 where
  prop_iou_threshold : F64 → Property
  prop_max_age : ℕ → Property

unfoldable pub set_property : Property → TrackerElement → TrackerElement
set_property (prop_iou_threshold v) s = record s { iou_threshold = v }
set_property (prop_max_age v) s = record s { max_age = v }

-- gst_nvmm_tracker_start; `narrow` makes a float of a double.
unfoldable pub start : (F64 → F32) → TrackerElement → TrackerElement
start narrow s = record s {
  tracker = some (record {
    params = record { iou_threshold = narrow s.iou_threshold; max_age = s.max_age };
    tracks = [];
    next_id = 1;
  });
}

-- gst_nvmm_tracker_stop
unfoldable pub stop : TrackerElement → TrackerElement
stop s = record s { tracker = none }

abbrev pub drop {ℓ} : {A : Type ℓ} → ℕ → List A → List A
drop zero xs = xs
drop (suc n) [] = []
drop (suc n) (x ∷ xs) = drop n xs

module _ (F : FloatOps) where
  -- The first num_objects objects are updated in place.
  unfoldable pub track_meta : Tracker → BufferMeta → BufferMeta × Tracker
  track_meta t m =
      let (objects, t') = update F t (take m.num_objects m.objects) in
      (record m { objects = objects ++ drop m.num_objects m.objects }, t')

  abbrev pub track_buffer :
      Option Tracker → Option BufferMeta → TrackerElement → Option BufferMeta × TrackerElement
  track_buffer none m s = (m, s)
  track_buffer (some t) none s = (none, s)
  track_buffer (some t) (some m) s =
      let (m', t') = track_meta t m in
      if m.num_objects == 0 then (some m, s) else (some m', record s { tracker = some t' })

  -- gst_nvmm_tracker_transform_ip: the buffer's detections and the element after it.
  unfoldable pub transform_ip :
      Option BufferMeta → TrackerElement → Option BufferMeta × TrackerElement
  transform_ip m s = track_buffer s.tracker m s
