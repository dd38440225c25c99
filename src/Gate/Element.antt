-- ===== src/Gate/Element.antt =====
-- gst/nvmmdetgate/gstnvmmdetgate.cpp: the element around DetGate. The matcher of features is a parameter,
-- and so is the arithmetic on binary64 numbers, which are bit patterns here.
use gst_nvmm_cpp.Common.{
  ℕ, zero, suc, ◌+◌, ◌-◌, ◌*◌, ◌^◌, ◌%◌, List, [], ◌∷◌, ◌++◌, Option, none, some, Bool, true, false,
  ◌&&◌, not, set, get_or, length, leb, ltb, ◌==◌, if◌then◌else◌,
}
use gst_nvmm_cpp.Common.Int.{ℤ, pos, negsuc, eq_ℤ}
use gst_nvmm_cpp.Common.Float.{F32, FloatOps}
use gst_nvmm_cpp.Common.Text.{codes}
use gst_nvmm_cpp.Ipc.Protocol.{DetObject}
use gst_nvmm_cpp.DetMeta.{BufferMeta}
use gst_nvmm_cpp.Gate.{DetGate, new_gate, reset, nothing, synth_seed, update}
use gst_nvmm_cpp.Gate.Blob.{GateDet, MotionSample, GateCfg, two}

abbrev pub F64 : Type 0
F64 = ℕ

-- `centre l w` is `(float)(l + w / 2.0)`, `below c m` is `c < m` for a float and a double.
pub record DoubleOps : Type 0 where
  pub narrow : F64 → F32
  pub centre : F32 → F32 → F32
  pub below : F32 → F64 → Bool

-- What XfeatMatcher and the estimation of the background say: whether a frame has features, and the
-- samples of a frame against two older ones on a surface of a width and a height.
pub record Matcher (XfeatFrame : Type 0) : Type 0 where
  pub empty : XfeatFrame → Bool
  pub samples : XfeatFrame → XfeatFrame → XfeatFrame → ℕ → ℕ → List MotionSample

-- `gate` is null or a gate; `matcher` says whether there is one.
pub record GateElement (XfeatFrame : Type 0) : Type 0 where
  pub engine_dir : Option (List ℕ)
  pub target_class : ℕ
  pub min_conf : F64
  pub ds_factor : ℕ
  pub dlt : ℕ
  pub rmin : F64
  pub rminsky : F64
  pub confsky : F64
  pub dist : F64
  pub amin : ℕ
  pub ksup : ℕ
  pub maxlost : ℕ
  pub borderfrac : F64
  pub enabled : Bool
  pub seed_on_motion : Bool
  pub motion_silent : ℕ
  pub motion_rmin : F64
  pub gate : Option DetGate
  pub matcher : Bool
  pub matcher_ready : Bool
  pub hist : List XfeatFrame
  pub frame_no : ℕ
  pub announced : Bool

-- A buffer: its surface's width and height, its detections, the features that are extracted from it,
-- and whether the matcher's start would succeed.
pub record Incoming (XfeatFrame : Type 0) : Type 0 where
  pub surface : Option (ℕ × ℕ)
  pub det : Option BufferMeta
  pub features : XfeatFrame
  pub starts : Bool

pub data Property : Type 0 where
  prop_engine_dir : Option (List ℕ) → Property
  prop_target_class prop_ds prop_dlt prop_amin prop_ksup prop_maxlost : ℕ → Property
  prop_min_conf prop_rmin prop_rminsky prop_confsky prop_dist prop_borderfrac : F64 → Property
  prop_enabled prop_seed_on_motion : Bool → Property
  prop_motion_silent : ℕ → Property
  prop_motion_rmin : F64 → Property

abbrev pub no_object : DetObject
no_object = record {
  left = 0;
  top = 0;
  width = 0;
  height = 0;
  class_id = pos 0;
  confidence = 0;
  tracker_id = 0;
  label = [];
}

module _ {XfeatFrame : Type 0} where
  -- gst_nvmm_detgate_init
  abbrev pub init : GateElement XfeatFrame
  init = record {
    engine_dir = none;
    target_class = 0;
    min_conf = 0x3FD0000000000000;
    ds_factor = 2;
    dlt = 5;
    rmin = 0x4028000000000000;
    rminsky = 0x4020000000000000;
    confsky = 0x3FE199999999999A;
    dist = 0x4046800000000000;
    amin = 6;
    ksup = 4;
    maxlost = 2;
    borderfrac = 0x3F947AE147AE147B;
    enabled = true;
    seed_on_motion = false;
    motion_silent = 12;
    motion_rmin = 0x4030000000000000;
    gate = none;
    matcher = false;
    matcher_ready = false;
    hist = [];
    frame_no = 0;
    announced = false;
  }

  unfoldable pub set_prop : Property → GateElement XfeatFrame → GateElement XfeatFrame
  set_prop (prop_engine_dir v) s = record s { engine_dir = v }
  set_prop (prop_target_class v) s = record s { target_class = v }
  set_prop (prop_min_conf v) s = record s { min_conf = v }
  set_prop (prop_ds v) s = record s { ds_factor = v }
  set_prop (prop_dlt v) s = record s { dlt = v }
  set_prop (prop_rmin v) s = record s { rmin = v }
  set_prop (prop_rminsky v) s = record s { rminsky = v }
  set_prop (prop_confsky v) s = record s { confsky = v }
  set_prop (prop_dist v) s = record s { dist = v }
  set_prop (prop_amin v) s = record s { amin = v }
  set_prop (prop_ksup v) s = record s { ksup = v }
  set_prop (prop_maxlost v) s = record s { maxlost = v }
  set_prop (prop_borderfrac v) s = record s { borderfrac = v }
  set_prop (prop_enabled v) s = record s { enabled = v }
  set_prop (prop_seed_on_motion v) s = record s { seed_on_motion = v }
  set_prop (prop_motion_silent v) s = record s { motion_silent = v }
  set_prop (prop_motion_rmin v) s = record s { motion_rmin = v }

  -- gst_nvmm_detgate_stop
  unfoldable pub stop : GateElement XfeatFrame → GateElement XfeatFrame
  stop s = record s { gate = none; matcher = false; matcher_ready = false; hist = [] }

  -- gst_nvmm_detgate_src_event: whether the event is an `nvmm-reset`.
  unfoldable pub src_event : Bool → GateElement XfeatFrame → GateElement XfeatFrame
  src_event reset_asked s =
      if reset_asked
      then elim s.gate [ none ↦ s | some g ↦ record s { gate = some (reset g) } ]
      else s

  -- The pops of the history, down to `need` frames.
  unfoldable pub trim : ℕ → List XfeatFrame → List XfeatFrame
  trim need [] = []
  trim need (x ∷ xs) = elim (ltb need (suc (length xs))) [ true ↦ trim need xs | false ↦ x ∷ xs ]

  module _ (F : FloatOps) (D : DoubleOps) (M : Matcher XfeatFrame)
      (order : List GateDet → List ℕ) where
    unfoldable pub gate_cfg : GateElement XfeatFrame → GateCfg
    gate_cfg s = record {
      rmin = D.narrow s.rmin;
      dist = D.narrow s.dist;
      amin = s.amin;
      ksup = s.ksup;
      maxlost = s.maxlost;
      borderfrac = D.narrow s.borderfrac;
      sample_rad = 0x42000000;
      seed_on_motion = s.seed_on_motion;
      motion_silent = s.motion_silent;
      motion_rmin = D.narrow s.motion_rmin;
      motion_minpts = 4;
      motion_cell = 0x42400000;
      confsky = D.narrow s.confsky;
    }

    -- The start of the matcher and the gate; `none` lets the buffer pass.
    unfoldable pub prepare : Bool → GateElement XfeatFrame → Option (GateElement XfeatFrame)
    prepare starts s = if s.matcher_ready then some s else elim s.engine_dir [
      | none ↦ none
      | some [] ↦ none
      | some (c ∷ dir) ↦
          if starts
          then some (record s {
            matcher = true;
            matcher_ready = true;
            gate = some (new_gate (gate_cfg s));
          })
          else none
    ]

    abbrev pub accepted : GateElement XfeatFrame → DetObject → Bool
    accepted s o = eq_ℤ o.class_id (pos s.target_class) && not (D.below o.confidence s.min_conf)

    -- The detections of the target class, the one at hand being number `i`.
    unfoldable pub gate_dets :
        GateElement XfeatFrame → F32 → F32 → ℕ → ℕ → List DetObject → List GateDet
    gate_dets s sx sy zero i objects = []
    gate_dets s sx sy (suc n) i objects =
        let o = get_or objects i no_object in
        let rest = gate_dets s sx sy n (i + 1) objects in
        if accepted s o
        then record {
          cx = F.mul (D.centre o.left o.width) sx;
          cy = F.mul (D.centre o.top o.height) sy;
          w = F.mul o.width sx;
          h = F.mul o.height sy;
          conf = o.confidence;
          src_index = pos i;
        }
          ∷ rest
        else rest

    abbrev scale_of : ℕ → ℕ → F32
    scale_of surf infer = if infer == 0 then 0x3F800000 else F.div (F.of_int surf) (F.of_int infer)

    unfoldable pub dets_of : GateElement XfeatFrame → ℕ → ℕ → Option BufferMeta → List GateDet
    dets_of s w h none = []
    dets_of s w h (some m) =
        gate_dets s (scale_of w m.infer_width) (scale_of h m.infer_height) m.num_objects 0 m.objects

    unfoldable pub ask_gate :
        List MotionSample
        → ℕ
        → ℕ
        → List GateDet
        → Option DetGate
        → GateElement XfeatFrame
        → ℤ × GateElement XfeatFrame
    ask_gate motion w h dets none s = (nothing, s)
    ask_gate motion w h dets (some g) s =
        let (keep, g') = update F order motion dets w h g in (keep, record s { gate = some g' })

    -- The gate's answer, or -1 while the history is short or the frame has no features.
    unfoldable pub decide :
        ℕ → ℕ → List GateDet → XfeatFrame → GateElement XfeatFrame → ℤ × GateElement XfeatFrame
    decide w h dets cur s =
        let size = length s.hist in
        let ref_a = get_or s.hist (size - 1 - s.dlt) cur in
        let ref_b = get_or s.hist (size - 1 - 2 * s.dlt) cur in
        if leb (2 * s.dlt + 1) size && (s.matcher_ready && not (M.empty cur))
        then ask_gate (M.samples cur ref_a ref_b w h) w h dets s.gate s
        else (nothing, s)

    -- The detection that motion alone gives.
    abbrev pub seed_object : GateElement XfeatFrame → F32 × F32 × F32 × F32 → DetObject
    seed_object s (cx, cy, w, h) = record {
      left = F.sub cx (F.div w two);
      top = F.sub cy (F.div h two);
      width = w;
      height = h;
      class_id = pos s.target_class;
      confidence = 0x3F666666;
      tracker_id = 0;
      label = codes "target";
    }

    -- The array is made if there is none.
    abbrev pub put_first : DetObject → List DetObject → List DetObject
    put_first o [] = o ∷ []
    put_first o (x ∷ xs) = o ∷ xs

    abbrev hide : BufferMeta → GateElement XfeatFrame → BufferMeta × GateElement XfeatFrame
    hide m s = (record m { num_objects = 0 }, s)

    abbrev pub put_seed :
        Option (F32 × F32 × F32 × F32)
        → BufferMeta
        → GateElement XfeatFrame
        → BufferMeta × GateElement XfeatFrame
    put_seed none m s = hide m s
    put_seed (some at) m s =
        (record m { num_objects = 1; objects = put_first (seed_object s at) m.objects }, s)

    abbrev emit_seed :
        Option DetGate → BufferMeta → GateElement XfeatFrame → BufferMeta × GateElement XfeatFrame
    emit_seed none m s = hide m s
    emit_seed (some g) m s =
        let (seed, g') = synth_seed g in put_seed seed m (record s { gate = some g' })

    -- What the buffer's detections become.
    unfoldable pub emit :
        ℤ → BufferMeta → GateElement XfeatFrame → BufferMeta × GateElement XfeatFrame
    emit (pos k) m s =
        if ltb k m.num_objects
        then (
          record m { num_objects = 1; objects = set m.objects 0 (get_or m.objects k no_object) },
          record s { announced = true },
        )
        else hide m s
    emit (negsuc k) m s = if k == 1 then emit_seed s.gate m s else hide m s

    abbrev pub emit_all :
        ℤ → Option BufferMeta → GateElement XfeatFrame → Option BufferMeta × GateElement XfeatFrame
    emit_all keep none s = (none, s)
    emit_all keep (some m) s = let (m', s') = emit keep m s in (some m', s')

    -- The rest of transform_ip once there is a matcher, for a surface of a width and a height.
    unfoldable pub filter_dets :
        Incoming XfeatFrame
        → ℕ
        → ℕ
        → GateElement XfeatFrame
        → Option BufferMeta × GateElement XfeatFrame
    filter_dets buf w h s =
        let queued : GateElement XfeatFrame = record s {
          hist = trim (2 * s.dlt + 1) (s.hist ++ (buf.features ∷ []));
        } in
        let (keep, s') = decide w h (dets_of s w h buf.det) buf.features queued in
        emit_all keep buf.det s'

    -- gst_nvmm_detgate_transform_ip
    unfoldable pub transform_ip :
        Incoming XfeatFrame → GateElement XfeatFrame → Option BufferMeta × GateElement XfeatFrame
    transform_ip buf s =
        let s' : GateElement XfeatFrame = record s { frame_no = (s.frame_no + 1) % 2 ^ 64 } in
        if s'.enabled
        then elim buf.surface [
          | none ↦ (buf.det, s')
          | some (w, h) ↦ elim (prepare buf.starts s') [
            | none ↦ (buf.det, s')
            | some ready ↦ filter_dets buf w h ready
          ]
        ]
        else (buf.det, s')
