-- ===== src/Tracker.antt =====
-- gst/nvmmtracker/tracker.cpp: greedy matching of detections with the tracks of the frames before.
pub mod Match
pub mod Ids
pub mod Frames
pub mod Ages
pub mod Element
pub mod Runs
use gst_nvmm_cpp.Common.{
  ℕ, zero, suc, ◌+◌, ◌%◌, ◌^◌, List, [], ◌∷◌, ◌++◌, Option, none, some, Bool, true, false, ◌||◌,
  not, ltb, if◌then◌else◌, map,
}
use gst_nvmm_cpp.Common.Int.{ℤ, eq_ℤ}
use gst_nvmm_cpp.Common.Float.{F32, FloatOps, fmax, fmin}
use gst_nvmm_cpp.Ipc.Protocol.{DetObject}

pub record TrackerParams : Type 0 where
  pub iou_threshold : F32
  pub max_age : ℕ

pub record Track : Type 0 where
  pub id : ℕ
  pub left : F32
  pub top : F32
  pub width : F32
  pub height : F32
  pub class_id : ℤ
  pub age : ℕ

pub record Tracker : Type 0 where
  pub params : TrackerParams
  pub tracks : List Track
  pub next_id : ℕ

unfoldable pub reset : Tracker → Tracker
reset t = record t { tracks = []; next_id = 1 }

-- A track beside its entry of `matched`.
abbrev pub Marked : Type 0
Marked = Track × Bool

module _ (F : FloatOps) where
  unfoldable pub iou : F32 → F32 → F32 → F32 → F32 → F32 → F32 → F32 → F32
  iou ax ay aw ah bx by' bw bh =
      let ix1 = fmax F ax bx in
      let iy1 = fmax F ay by' in
      let ix2 = fmin F (F.add ax aw) (F.add bx bw) in
      let iy2 = fmin F (F.add ay ah) (F.add by' bh) in
      let iw = fmax F (F.of_int 0) (F.sub ix2 ix1) in
      let ih = fmax F (F.of_int 0) (F.sub iy2 iy1) in
      let inter = F.mul iw ih in
      let uni = F.sub (F.add (F.mul aw ah) (F.mul bw bh)) inter in
      if F.lt (F.of_int 0) uni then F.div inter uni else F.of_int 0

  unfoldable pub overlap : DetObject → Track → F32
  unfolding iou
  overlap o t = iou o.left o.top o.width o.height t.left t.top t.width t.height

  -- Whether the loop skips the track.
  abbrev pub skips : DetObject → Marked → Bool
  skips o (t, m) = m || not (eq_ℤ t.class_id o.class_id)

  -- The search: this track is number `k`, and `best` the last one that reached `best_iou`.
  unfoldable pub best_match : DetObject → List Marked → ℕ → Option ℕ → F32 → Option ℕ
  best_match o [] k best best_iou = best
  best_match o (t ∷ ts) k best best_iou =
      let v = overlap o t.0 in
      let better = (if skips o t then false else F.le best_iou v) in
      best_match o ts (k + 1) (if better then some k else best) (if better then v else best_iou)

  -- The track takes the object's box.
  abbrev pub take_box : DetObject → Track → Track
  take_box o t = record t {
    left = o.left;
    top = o.top;
    width = o.width;
    height = o.height;
    age = 0;
  }

  -- The matched track is updated and marked; its identifier goes to the object.
  unfoldable pub match_at : DetObject → ℕ → List Marked → DetObject × List Marked
  match_at o k [] = (o, [])
  match_at o zero ((t, m) ∷ ts) = (record o { tracker_id = t.id }, (take_box o t, true) ∷ ts)
  match_at o (suc k) (t ∷ ts) = let (o', ts') = match_at o k ts in (o', t ∷ ts')

  abbrev pub new_track : DetObject → ℕ → Track
  new_track o id = record {
    id = id;
    left = o.left;
    top = o.top;
    width = o.width;
    height = o.height;
    class_id = o.class_id;
    age = 0;
  }

  -- One object: matched, or the first of a new track.
  unfoldable pub track_object : F32 → DetObject → List Marked → ℕ → DetObject × List Marked × ℕ
  track_object threshold o ts next_id = elim (best_match o ts 0 none threshold) [
    | some k ↦ let (o', ts') = match_at o k ts in (o', ts', next_id)
    | none ↦ (
      record o { tracker_id = next_id },
      ts ++ ((new_track o next_id, true) ∷ []),
      (next_id + 1) % 2 ^ 64,
    )
  ]

  unfoldable pub track_objects :
      F32 → List DetObject → List Marked → ℕ → List DetObject × List Marked × ℕ
  track_objects threshold [] ts next_id = ([], ts, next_id)
  track_objects threshold (o ∷ os) ts next_id =
      let (o', ts', next') = track_object threshold o ts next_id in
      let (os', ts'', next'') = track_objects threshold os ts' next' in (o' ∷ os', ts'', next'')

abbrev pub unmarked : Track → Marked
unmarked t = (t, false)

-- The end of the frame: unmatched tracks age, and those past `max_age` are erased.
unfoldable pub grow_old : ℕ → List Marked → List Track
grow_old max_age [] = []
grow_old max_age ((t, m) ∷ ts) =
    let t' : Track = (if m then t else record t { age = t.age + 1 }) in
    let rest = grow_old max_age ts in if ltb max_age t'.age then rest else t' ∷ rest

module _ (F : FloatOps) where
  -- Tracker::update
  unfoldable pub update : Tracker → List DetObject → List DetObject × Tracker
  update t objects =
      let (objects', ts, next) =
        track_objects F t.params.iou_threshold objects (map unmarked t.tracks) t.next_id in
      (objects', record t { tracks = grow_old t.params.max_age ts; next_id = next })
