-- ===== src/Compositor.antt =====
-- gst/nvmmcompositor/gstnvmmcompositor.cpp: the composition of the pads' buffers (aggregate). Positions and
-- sizes are not negative, as the pads' properties have it.
pub mod Tiles
use gst_nvmm_cpp.Common.{
  ℕ, ◌+◌, ◌-◌, ◌%◌, ◌^◌, List, [], ◌∷◌, ◌++◌, Option, none, some, Bool, true, false, ◌&&◌, ◌||◌,
  ltb, if◌then◌else◌,
}
use gst_nvmm_cpp.Surface.Transform.{TransformRect}

pub record CompositorPad : Type 0 where
  pub xpos : ℕ
  pub ypos : ℕ
  pub width : ℕ
  pub height : ℕ

-- gst_nvmm_compositor_pad_init
abbrev pub pad_init : CompositorPad
pad_init = record { xpos = 0; ypos = 0; width = 0; height = 0 }

pub data PadProperty : Type 0 where
  pad_xpos pad_ypos pad_width pad_height : ℕ → PadProperty

unfoldable pub pad_set_property : PadProperty → CompositorPad → CompositorPad
pad_set_property (pad_xpos v) p = record p { xpos = v }
pad_set_property (pad_ypos v) p = record p { ypos = v }
pad_set_property (pad_width v) p = record p { width = v }
pad_set_property (pad_height v) p = record p { height = v }

-- A buffer that waits on a pad: whether it has a surface, and its time stamp.
pub record Waiting : Type 0 where
  pub surface : Bool
  pub pts : Option ℕ

pub record SinkPad : Type 0 where
  pub pad : CompositorPad
  pub buffer : Option Waiting
  pub eos : Bool

pub record Compositor : Type 0 where
  pub out_width : ℕ
  pub out_height : ℕ
  pub src_caps_set : Bool

-- gst_nvmm_compositor_init
abbrev pub init : Compositor
init = record { out_width = 1280; out_height = 720; src_caps_set = false }

pub data CompositorProperty : Type 0 where
  set_width set_height : ℕ → CompositorProperty

unfoldable pub set_property : CompositorProperty → Compositor → Compositor
set_property (set_width v) s = record s { out_width = v }
set_property (set_height v) s = record s { out_height = v }

-- (uint32_t)(a - b), which wraps around
abbrev pub difference : ℕ → ℕ → ℕ
difference a b = (2 ^ 32 + a - b) % 2 ^ 32

-- `dr`: a width or height of 0 reaches to the output's edge.
unfoldable pub dst_rect : Compositor → CompositorPad → TransformRect
dst_rect s p = record {
  top = p.ypos;
  left = p.xpos;
  width = if ltb 0 p.width then p.width else difference s.out_width p.xpos;
  height = if ltb 0 p.height then p.height else difference s.out_height p.ypos;
}

pub record Round : Type 0 where
  pub any : Bool
  pub all_eos : Bool
  pub pts : Option ℕ
  pub tiles : List TransformRect

abbrev pub or_else : Option ℕ → Option ℕ → Option ℕ
or_else none q = q
or_else (some p) q = some p

-- One pad with a buffer.
unfoldable pub compose : Compositor → CompositorPad → Waiting → Round → Round
compose s p b r =
    if b.surface
    then record {
      any = true;
      all_eos = false;
      pts = or_else r.pts b.pts;
      tiles = r.tiles ++ (dst_rect s p ∷ []);
    }
    else record r { all_eos = false }

unfoldable pub compose_pad : Compositor → SinkPad → Round → Round
compose_pad s p r = elim p.buffer [
  | none ↦ record r { all_eos = if p.eos then r.all_eos else false }
  | some b ↦ compose s p.pad b r
]

-- The loop over the pads, whose buffers are dropped.
unfoldable pub compose_all : Compositor → List SinkPad → Round → Round × List SinkPad
compose_all s [] r = (r, [])
compose_all s (p ∷ ps) r =
    let (r', rest) = compose_all s ps (compose_pad s p r) in (r', record p { buffer = none } ∷ rest)

-- How `aggregate` ends: `skipped` is GST_FLOW_OK with no buffer, and `pushed` hands the output buffer on,
-- with its time stamp and the tiles it asks NvBufSurfTransform for.
pub data Aggregated : Type 0 where
  failed eos skipped : Aggregated
  pushed : Option ℕ → List TransformRect → Aggregated

unfoldable pub end_of : Round → Aggregated
end_of r = if r.all_eos then eos else if r.any then pushed r.pts r.tiles else skipped

-- gst_nvmm_compositor_aggregate: whether the output's memory is allocated and has a surface.
unfoldable pub aggregate :
    Bool → Bool → List SinkPad → Compositor → Aggregated × List SinkPad × Compositor
aggregate allocated surface pads s =
    let s' : Compositor = record s { src_caps_set = true } in
    let (r, pads') =
      compose_all s' pads (record { any = false; all_eos = true; pts = none; tiles = [] }) in
    if allocated && surface then (end_of r, pads', s') else (failed, pads, s')
