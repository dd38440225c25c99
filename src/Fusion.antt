-- ===== src/Fusion.antt =====
-- gst/nvmmfusion/gstnvmmfusion.cpp: the buffers of the detector's branch and of the optical flow's, joined by
-- their time stamps. A time stamp that is not valid is `none`.
pub mod Join
use gst_nvmm_cpp.Common.{
  ℕ, zero, suc, List, [], ◌∷◌, ◌++◌, Option, none, some, Bool, true, false, ◌&&◌, ◌||◌, not, min,
  ltb, ◌==◌, if◌then◌else◌,
}
use gst_nvmm_cpp.Common.Float.{F32, FloatOps}
use gst_nvmm_cpp.Ipc.Protocol.{meta_max_objects}
use gst_nvmm_cpp.DetMeta.{BufferMeta}
use gst_nvmm_cpp.Gate.Element.{F64, DoubleOps}
use gst_nvmm_cpp.Motion.{MotionOps, MotionEntry, FlowField, compute_box_motion}

-- NvmmOpticalFlowMeta: `mv` is null or a memory, with what it maps to if it can be mapped.
pub record OpticalFlowMeta : Type 0 where
  pub mv : Option (Option FlowField)

pub record Buffer : Type 0 where
  pub pts : Option ℕ
  pub det : Option BufferMeta
  pub flow : Option OpticalFlowMeta

-- A sink pad: its buffers, the one that is next first, and whether it is at its end.
pub record Pad : Type 0 where
  pub queue : List Buffer
  pub eos : Bool

pub record Fusion : Type 0 where
  pub det_pad : Pad
  pub flow_pad : Pad
  pub src_caps_set : Bool
  pub compute_motion : Bool
  pub motion_threshold : F64

-- gst_nvmm_fusion_init
abbrev pub init : Fusion
init = record {
  det_pad = record { queue = []; eos = false };
  flow_pad = record { queue = []; eos = false };
  src_caps_set = false;
  compute_motion = true;
  motion_threshold = 0x3FF0000000000000;
}

pub data Property : Type 0 where
  prop_compute_motion : Bool → Property
  prop_motion_threshold : F64 → Property

unfoldable pub set_property : Property → Fusion → Fusion
set_property (prop_compute_motion v) s = record s { compute_motion = v }
set_property (prop_motion_threshold v) s = record s { motion_threshold = v }

-- The buffer that is pushed: the detector's, with the metas that are added to it.
pub record Fused : Type 0 where
  pub base : Buffer
  pub flow : Option OpticalFlowMeta
  pub motion : List MotionEntry

-- `pushed` hands a buffer to gst_aggregator_finish_buffer.
pub data Flow : Type 0 where
  eos need_data : Flow
  pushed : Fused → Flow

abbrev pub drop_head : Pad → Pad
drop_head p = record p { queue = elim p.queue [ [] ↦ [] | b ∷ bs ↦ bs ] }

-- Whether both time stamps are valid and they differ, and then whether the first is older.
abbrev pub mismatch : Option ℕ → Option ℕ → Option Bool
mismatch none fp = none
mismatch (some dp) none = none
mismatch (some dp) (some fp) = if dp == fp then none else some (ltb dp fp)

module _ (F : FloatOps) (D : DoubleOps) (M : MotionOps) where
  unfoldable pub annotate_motion : F64 → BufferMeta → OpticalFlowMeta → List MotionEntry
  annotate_motion threshold dm fm = elim fm.mv [
    | none ↦ []
    | some none ↦ []
    | some (some f) ↦
        compute_box_motion F M f dm.objects (min dm.num_objects meta_max_objects)
          (D.narrow threshold)
  ]

  -- The motion of the detections, where it is asked for and both metas are there.
  abbrev pub motion_of : Bool → F64 → Option BufferMeta → Option OpticalFlowMeta → List MotionEntry
  motion_of asked threshold none fm = []
  motion_of asked threshold (some dm) none = []
  motion_of asked threshold (some dm) (some fm) =
      if asked && not (dm.num_objects == 0) then annotate_motion threshold dm fm else []

  unfoldable pub fuse : Bool → F64 → Buffer → Buffer → Fused
  fuse asked threshold det flow = record {
    base = det;
    flow = flow.flow;
    motion = motion_of asked threshold det.det flow.flow;
  }

  -- Both pads have a buffer. `caps` says whether the detector's pad has caps.
  unfoldable pub join_heads : Bool → Buffer → Buffer → Fusion → Flow × Fusion
  join_heads caps det flow s = elim (mismatch det.pts flow.pts) [
    | some true ↦ (need_data, record s { det_pad = drop_head s.det_pad })
    | some false ↦ (need_data, record s { flow_pad = drop_head s.flow_pad })
    | none ↦
        if s.src_caps_set || caps
        then (
          pushed (fuse s.compute_motion s.motion_threshold det flow),
          record s {
            det_pad = drop_head s.det_pad;
            flow_pad = drop_head s.flow_pad;
            src_caps_set = true;
          },
        )
        else (need_data, s)
  ]

  abbrev pub with_heads : Bool → List Buffer → List Buffer → Fusion → Flow × Fusion
  with_heads caps [] fs s = (need_data, s)
  with_heads caps (d ∷ ds) [] s = (need_data, s)
  with_heads caps (d ∷ ds) (f ∷ fs) s = join_heads caps d f s

  -- gst_nvmm_fusion_aggregate
  unfoldable pub aggregate : Bool → Fusion → Flow × Fusion
  aggregate caps s =
      if s.det_pad.eos || s.flow_pad.eos
      then (eos, s)
      else with_heads caps s.det_pad.queue s.flow_pad.queue s
