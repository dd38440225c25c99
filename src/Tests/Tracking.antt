-- ===== src/Tests/Tracking.antt =====
-- gst/nvmmtracker/tracker.cpp at concrete inputs.
use gst_nvmm_cpp.Common.{
  ℕ, List, Option, none, some, ◌+◌, ◌≤◌, ◌≡◌, refl, ◌⊎◌, [], ◌∷◌, true, length, leb, All, map,
  arith,
}
use gst_nvmm_cpp.Common.Int.{pos}
use gst_nvmm_cpp.Common.Float.{F32, whole}
use gst_nvmm_cpp.Ipc.Protocol.{DetObject}
use gst_nvmm_cpp.Tracker.{
  Tracker, Track, unmarked, track_object, update, iou, overlap, best_match, match_at, track_objects,
  grow_old,
}
use gst_nvmm_cpp.DetMeta.{BufferMeta}
use gst_nvmm_cpp.Tracker.Element.{TrackerElement, init, start, track_meta, transform_ip}
use gst_nvmm_cpp.Tracker.Runs.{IdsApart, occupied_only, run, run-IdsApart, run-occupied_only}
use gst_nvmm_cpp.Tracker.Match.{Starts, Continues, track_object_cases}
use gst_nvmm_cpp.Tracker.Frames.{IsNumbered, DistinctIds, update_ids}
use gst_nvmm_cpp.Tracker.Ages.{older, update_ages}

leb_trans : (a b c : F32) → leb a b ≡ true → leb b c ≡ true → leb a c ≡ true
leb_trans a b c h k = ground arith

abbrev box : DetObject
box = record {
  left = 10;
  top = 10;
  width = 20;
  height = 20;
  class_id = pos 2;
  confidence = 1;
  tracker_id = 0;
  label = [];
}

abbrev far_box : DetObject
far_box = record box { left = 100 }

abbrev known : Track
known = record { id = 4; left = 10; top = 10; width = 20; height = 20; class_id = pos 2; age = 2 }

abbrev tracker : Tracker
tracker = record {
  params = record { iou_threshold = 1; max_age = 30 };
  tracks = known ∷ [];
  next_id = 6;
}

tracker-IsNumbered : IsNumbered tracker
tracker-IsNumbered = (omega arith, omega arith)

track_object_cases_run :
    Starts whole leb_trans far_box 1
      (unmarked known ∷ [])
      6
      (track_object whole 1 far_box (unmarked known ∷ []) 6)
    ⊎ Continues whole leb_trans far_box 1
        (unmarked known ∷ [])
        6
        (track_object whole 1 far_box (unmarked known ∷ []) 6)
track_object_cases_run = track_object_cases whole leb_trans far_box 1 (unmarked known ∷ []) 6

update_ids_example :
    let (objects', t') = update whole tracker (box ∷ far_box ∷ []) in
    IsNumbered t'
    × DistinctIds objects'
    × (6 ≤ t'.next_id)
    × (t'.next_id ≤ 6 + length (box ∷ far_box ∷ []))
update_ids_example =
    update_ids whole leb_trans tracker (box ∷ far_box ∷ []) (omega arith) tracker-IsNumbered

update_ages_run :
    All (λ u. u.age ≤ 30) (update whole tracker (box ∷ [])).1.tracks
    × ((update whole tracker []).1 ≡ record tracker { tracks = older 30 tracker.tracks })
update_ages_run = update_ages whole tracker (box ∷ [])

-- The box at the known track's place continues it; the other starts track 6.
two_boxes :
    map (λ (o : DetObject). o.tracker_id) (update whole tracker (box ∷ far_box ∷ [])).0 ≡ 4 ∷ 6 ∷ []
unfolding update track_objects track_object best_match match_at overlap iou grow_old
two_boxes = refl

abbrev no_box : BufferMeta
no_box = record {
  frame_number = 0;
  infer_width = 0;
  infer_height = 0;
  flags = 0;
  num_objects = 0;
  objects = [];
}

abbrev same_boxes : BufferMeta
same_boxes = record no_box { num_objects = 2; objects = box ∷ box ∷ [] }

abbrev element : TrackerElement
element = record init { iou_threshold = 1; max_age = 1 }

abbrev stream : List (Option BufferMeta)
stream = some same_boxes ∷ some no_box ∷ none ∷ some no_box ∷ some same_boxes ∷ []

run-IdsApart_example : All IdsApart (run whole stream (start (λ x. x) element)).0
run-IdsApart_example = run-IdsApart whole leb_trans (λ x. x) stream element (omega arith)

run-occupied_only_example :
    let (out, s') = run whole stream (start (λ x. x) element) in
    let (out', s'') = run whole (occupied_only stream) (start (λ x. x) element) in
    (occupied_only out ≡ occupied_only out') × (s' ≡ s'')
run-occupied_only_example = run-occupied_only whole stream (start (λ x. x) element)

-- With max_age 1, two tracks outlive three buffers without detections.
abbrev ids_of : Option BufferMeta → List ℕ
ids_of none = []
ids_of (some m) = map (λ (o : DetObject). o.tracker_id) m.objects

outlive :
    map ids_of (run whole stream (start (λ x. x) element)).0
    ≡ (1 ∷ 2 ∷ []) ∷ [] ∷ [] ∷ [] ∷ (2 ∷ 1 ∷ []) ∷ []
unfolding run start transform_ip track_meta update track_objects track_object best_match match_at
    overlap iou grow_old
outlive = refl
