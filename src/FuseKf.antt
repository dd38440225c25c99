-- ===== src/FuseKf.antt =====
-- gst/nvmmfusekf/gstnvmmfusekf.cpp: SAMURAI's track and the detector's boxes, fused by a Kalman filter. The log
-- (csv, frame_n) is left out, and lost does not reach 2^31.
pub mod Silence
pub mod Cooldown
use gst_nvmm_cpp.Common.{
  ℕ, zero, suc, ◌+◌, ◌-◌, ◌%◌, ◌^◌, List, [], ◌∷◌, Option, none, some, Bool, true, false, ◌&&◌,
  ◌||◌, not, get_or, ltb, leb, ◌==◌, if◌then◌else◌,
}
use gst_nvmm_cpp.Common.Int.{ℤ, pos, eq_ℤ}
use gst_nvmm_cpp.Common.Float.{F32}
use gst_nvmm_cpp.Ipc.Protocol.{DetObject}
use gst_nvmm_cpp.DetMeta.{BufferMeta}
use gst_nvmm_cpp.Gate.Element.{F64, no_object}
use gst_nvmm_cpp.Kalman.{Doubles, KalmanBox, Box, two, new_kalman, box, initiate, predict, update}

-- What the element reads and writes of GstNvmmTrackMeta.
pub record TrackMeta : Type 0 where
  pub frame_width : ℕ
  pub frame_height : ℕ
  pub valid : Bool
  pub target_id : ℕ
  pub left : F32
  pub top : F32
  pub width : F32
  pub height : F32

pub record FuseKf : Type 0 where
  pub target_class : ℕ
  pub det_conf : F64
  pub gate_thresh : F64
  pub max_lost : ℕ
  pub reseed_cooldown_frames : ℕ
  pub kf : Option KalmanBox
  pub have_pts : Bool
  pub prev_pts : ℕ
  pub lost : ℕ
  pub target_id : ℕ
  pub reseed_cooldown : ℕ
  pub ever_valid : Bool
  pub flush_bb : Bool
  pub flush_ratio : F64
  pub flush_gate : F64

-- gst_nvmm_fusekf_init
abbrev pub init : FuseKf
init = record {
  target_class = 0;
  det_conf = 0x3FD0000000000000;
  gate_thresh = 0x4059000000000000;
  max_lost = 30;
  reseed_cooldown_frames = 15;
  kf = none;
  have_pts = false;
  prev_pts = 0;
  lost = 0;
  target_id = 0;
  reseed_cooldown = 0;
  ever_valid = false;
  flush_bb = true;
  flush_ratio = 0x3FF8000000000000;
  flush_gate = 0x406F400000000000;
}

pub data Property : Type 0 where
  prop_target_class prop_max_lost prop_reseed_cooldown : ℕ → Property
  prop_det_conf prop_gate_thresh prop_flush_ratio prop_flush_gate : F64 → Property
  prop_flush_bb : Bool → Property

unfoldable pub set_property : Property → FuseKf → FuseKf
set_property (prop_target_class v) s = record s { target_class = v }
set_property (prop_max_lost v) s = record s { max_lost = v }
set_property (prop_reseed_cooldown v) s = record s { reseed_cooldown_frames = v }
set_property (prop_det_conf v) s = record s { det_conf = v }
set_property (prop_gate_thresh v) s = record s { gate_thresh = v }
set_property (prop_flush_ratio v) s = record s { flush_ratio = v }
set_property (prop_flush_gate v) s = record s { flush_gate = v }
set_property (prop_flush_bb v) s = record s { flush_bb = v }

-- gst_nvmm_fusekf_start
unfoldable pub start : FuseKf → FuseKf
start s = record s {
  kf = some new_kalman;
  have_pts = false;
  prev_pts = 0;
  lost = 0;
  target_id = 0;
  reseed_cooldown = 0;
  ever_valid = false;
}

-- gst_nvmm_fusekf_stop
unfoldable pub stop : FuseKf → FuseKf
stop s = record s { kf = none }

-- A buffer: its metas and its time stamp and duration, `none` where they are not valid.
pub record Frame : Type 0 where
  pub track : Option TrackMeta
  pub det : Option BufferMeta
  pub pts : Option ℕ
  pub duration : Option ℕ

-- A box by its corner, as the event nvmm-reseed carries it.
pub record Reseed : Type 0 where
  pub x : F64
  pub y : F64
  pub w : F64
  pub h : F64

-- The bits of 1.0 and 0.1.
abbrev one : F64
one = 0x3FF0000000000000

abbrev tenth : F64
tenth = 0x3FB999999999999A

abbrev pub stamped : Option ℕ → FuseKf → FuseKf
stamped none s = s
stamped (some pts) s = record s { prev_pts = pts; have_pts = true }

module _ (D : Doubles) where
  abbrev scale : ℕ → ℕ → F64
  scale frame infer = if infer == 0 then one else D.div (D.of_nat frame) (D.of_nat infer)

  abbrev better : DetObject → Option DetObject → Bool
  better o none = true
  better o (some b) = D.lt (D.widen b.confidence) (D.widen o.confidence)

  -- The loop over `n` objects, the one at hand being number `i`.
  unfoldable pub best_object : FuseKf → List DetObject → ℕ → ℕ → Option DetObject → Option DetObject
  best_object s objects i zero best = best
  best_object s objects i (suc n) best =
      let o = get_or objects i no_object in
      let eligible =
        eq_ℤ o.class_id (pos s.target_class) && not (D.lt (D.widen o.confidence) s.det_conf) in
      best_object s objects (i + 1) n (if eligible && better o best then some o else best)

  -- best_det
  unfoldable pub best_det : FuseKf → Option BufferMeta → ℕ → ℕ → Option Box
  best_det s none fw fh = none
  best_det s (some det) fw fh =
      let sx = scale fw det.infer_width in
      let sy = scale fh det.infer_height in
      elim (best_object s det.objects 0 det.num_objects none) [
        | none ↦ none
        | some best ↦
            let w = D.mul (D.widen best.width) sx in
            let h = D.mul (D.widen best.height) sy in
            some (record {
              cx = D.add (D.mul (D.widen best.left) sx) (D.div w two);
              cy = D.add (D.mul (D.widen best.top) sy) (D.div h two);
              w = w;
              h = h;
            })
      ]

  -- The frames that have passed by the time stamps, whose difference is one of 64-bit numbers.
  abbrev elapsed : FuseKf → Option ℕ → Option ℕ → F64
  elapsed s none dur = one
  elapsed s (some pts) none = one
  elapsed s (some pts) (some dur) =
      if s.have_pts && not (dur == 0)
      then D.div (D.of_nat ((pts + 2 ^ 64 - s.prev_pts) % 2 ^ 64)) (D.of_nat dur)
      else one

  unfoldable pub time_step : FuseKf → Option ℕ → Option ℕ → F64
  time_step s pts dur =
      let dt = elapsed s pts dur in
      let dt' = (if D.lt dt tenth then tenth else dt) in
      if D.lt 0x4024000000000000 dt' then 0x4024000000000000 else dt'

  -- SAMURAI's measurement, where there is one.
  unfoldable pub has_sam : TrackMeta → Bool
  has_sam tm = tm.valid && (D.lt 0 (D.widen tm.width) && D.lt 0 (D.widen tm.height))

  -- A track's box by its centre, and a box's centre.
  abbrev pub centred : TrackMeta → Box
  centred tm = record {
    cx = D.add (D.widen tm.left) (D.div (D.widen tm.width) two);
    cy = D.add (D.widen tm.top) (D.div (D.widen tm.height) two);
    w = D.widen tm.width;
    h = D.widen tm.height;
  }

  abbrev pub distance : Box → Box → F64
  distance a b = D.hypot (D.sub a.cx b.cx) (D.sub a.cy b.cy)

  abbrev fuse_yolo : FuseKf → Box → Option Box → KalmanBox → KalmanBox
  fuse_yolo s pred none k = k
  fuse_yolo s pred (some y) k = if D.lt (distance y pred) s.gate_thresh then update D y k else k

  -- The filter and its prediction, where it had begun.
  unfoldable pub observe :
      FuseKf → F64 → TrackMeta → Option Box → KalmanBox → KalmanBox × Option Box
  observe s dt tm yolo k =
      let k' = predict D dt k in
      let measured = (if has_sam tm then update D (centred tm) k' else k') in
      if k.initiated
      then (fuse_yolo s (box k') yolo measured, some (box k'))
      else ((if has_sam tm then initiate D (centred tm) else k), none)

  -- The box of the filter in the meta, or an invalid meta; `s` has the new `lost`.
  unfoldable pub publish : KalmanBox → TrackMeta → FuseKf → TrackMeta × FuseKf
  publish k tm s =
      let b = box k in
      let next = (s.target_id + 1) % 2 ^ 64 in
      if k.initiated && leb s.lost s.max_lost
      then (
        record tm {
          left = D.narrow (D.sub b.cx (D.div b.w two));
          top = D.narrow (D.sub b.cy (D.div b.h two));
          width = D.narrow b.w;
          height = D.narrow b.h;
          valid = true;
          target_id = if tm.target_id == 0 then next else tm.target_id;
        },
        record s { ever_valid = true; target_id = if tm.target_id == 0 then next else s.target_id },
      )
      else (record tm { valid = false }, s)

  -- The corner of a detection's box.
  abbrev pub corner : Box → Reseed
  corner y = record {
    x = D.sub y.cx (D.div y.w two);
    y = D.sub y.cy (D.div y.h two);
    w = y.w;
    h = y.h;
  }

  abbrev reference : Option Box → TrackMeta → Box
  reference none tm = centred tm
  reference (some pred) tm = pred

  -- The detection's box in place of a fused one that is much larger.
  unfoldable pub flush : FuseKf → Option Box → Option Box → TrackMeta → TrackMeta
  flush s pred none tm = tm
  flush s pred (some y) tm =
      let c = corner y in
      let gate = (if D.lt 0 s.flush_gate then s.flush_gate else s.gate_thresh) in
      let near = D.lt (distance y (reference pred tm)) gate in
      let fused_area = D.mul (D.widen tm.width) (D.widen tm.height) in
      let large = D.lt (D.mul s.flush_ratio (D.mul y.w y.h)) fused_area in
      if s.flush_bb && (tm.valid && (D.lt 0 y.w && (D.lt 0 y.h && (near && large))))
      then record tm {
        left = D.narrow c.x;
        top = D.narrow c.y;
        width = D.narrow c.w;
        height = D.narrow c.h;
      }
      else tm

  -- The event that asks upstream for a new seed.
  unfoldable pub reseed : Option Box → FuseKf → Option Reseed × FuseKf
  reseed yolo s =
      let s' : FuseKf = record s { reseed_cooldown = s.reseed_cooldown - 1 } in
      elim yolo [
        | none ↦ (none, s')
        | some y ↦
            if s.ever_valid && (ltb s.max_lost s.lost && s'.reseed_cooldown == 0)
            then (some (corner y), record s { reseed_cooldown = s.reseed_cooldown_frames })
            else (none, s')
      ]

  -- A buffer with a track meta, and a filter.
  unfoldable pub fuse : KalmanBox → TrackMeta → Frame → FuseKf → TrackMeta × Option Reseed × FuseKf
  fuse k tm frame s =
      let yolo = best_det s frame.det tm.frame_width tm.frame_height in
      let (k', pred) = observe s (time_step s frame.pts frame.duration) tm yolo k in
      let counted : FuseKf = record (stamped frame.pts s) {
        kf = some k';
        lost = if has_sam tm then 0 else s.lost + 1;
      } in
      let (tm', s') = publish k' tm counted in
      let (event, s'') = reseed yolo s' in (flush s' pred yolo tm', event, s'')

  -- gst_nvmm_fusekf_transform_ip: the buffer's track meta after it, the event and the state. Without a filter,
  -- which is a null pointer in the code, nothing is said.
  unfoldable pub transform_ip : Frame → FuseKf → Option (Option TrackMeta × Option Reseed × FuseKf)
  transform_ip frame s = elim frame.track [
    | none ↦ some (none, none, s)
    | some tm ↦ elim s.kf [
      | none ↦ none
      | some k ↦ let (tm', event, s') = fuse k tm frame s in some (some tm', event, s')
    ]
  ]
