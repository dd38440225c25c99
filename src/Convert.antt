-- ===== src/Convert.antt =====
-- gst/nvmmconvert/gstnvmmconvert.cpp: the element around NvmmTransform. A pool is a number. What the base class
-- does between the calls, and the pools themselves, are not part of the file; activation succeeds.
pub mod Borrows
pub mod Caps
pub mod Pools
use gst_nvmm_cpp.Common.{
  ℕ, List, [], ◌∷◌, Option, none, some, Bool, true, false, ◌&&◌, ◌||◌, ltb, ◌==◌, if◌then◌else◌,
}
use gst_nvmm_cpp.Surface.Types.{Result, ok, err}
use gst_nvmm_cpp.Surface.Buffer.{Owned, owner_of, destroy, release}
use gst_nvmm_cpp.Surface.Transform
use gst_nvmm_cpp.Surface.Transform.{
  FlipMethod, flip_none, Interpolation, inter_default, ComputeMode, compute_default,
  TransformParams, no_crop, Library,
}

pub record VideoInfo : Type 0 where
  pub width : ℕ
  pub height : ℕ
  pub format : ℕ
  pub size : ℕ

-- The private struct, and the base class's passthrough. An enum's value is its enumerator, as the properties'
-- types allow no other.
pub record Convert : Type 0 where
  pub crop_x : ℕ
  pub crop_y : ℕ
  pub crop_w : ℕ
  pub crop_h : ℕ
  pub flip : FlipMethod
  pub interpolation : Interpolation
  pub compute : ComputeMode
  pub sink_info : Option VideoInfo
  pub src_info : Option VideoInfo
  pub pool : Option ℕ
  pub passthrough : Bool

-- gst_nvmm_convert_init
abbrev pub init : Convert
init = record {
  crop_x = 0;
  crop_y = 0;
  crop_w = 0;
  crop_h = 0;
  flip = flip_none;
  interpolation = inter_default;
  compute = compute_default;
  sink_info = none;
  src_info = none;
  pool = none;
  passthrough = false;
}

pub data Property : Type 0 where
  prop_crop_x prop_crop_y prop_crop_w prop_crop_h : ℕ → Property
  prop_flip_method : FlipMethod → Property
  prop_interpolation : Interpolation → Property
  prop_compute_mode : ComputeMode → Property

unfoldable pub set_property : Property → Convert → Convert
set_property (prop_crop_x v) s = record s { crop_x = v }
set_property (prop_crop_y v) s = record s { crop_y = v }
set_property (prop_crop_w v) s = record s { crop_w = v }
set_property (prop_crop_h v) s = record s { crop_h = v }
set_property (prop_flip_method v) s = record s { flip = v }
set_property (prop_interpolation v) s = record s { interpolation = v }
set_property (prop_compute_mode v) s = record s { compute = v }

abbrev pub is_none : FlipMethod → Bool
is_none flip_none = true
is_none f = false

-- gst_nvmm_convert_set_caps: what the two caps are parsed to, and whether they are equal.
unfoldable pub set_caps : Option VideoInfo → Option VideoInfo → Bool → Convert → Bool × Convert
set_caps none src same s = (false, s)
set_caps (some i) none same s = (false, record s { sink_info = some i })
set_caps (some i) (some o) same s =
    let no_transform = (s.crop_w == 0 || s.crop_h == 0) && is_none s.flip in
    (true, record s { sink_info = some i; src_info = some o; passthrough = same && no_transform })

-- A buffer: its surface, its time stamp and its flags.
pub record Buffer : Type 0 where
  pub surface : Option Owned
  pub pts : Option ℕ
  pub flags : ℕ

-- The output is the input, a buffer of the pool with the input's time stamp and flags, or there is none;
-- `unset` is GST_FLOW_OK without a buffer.
pub data Prepared : Type 0 where
  shared failed unset : Prepared
  made : Buffer → Prepared

-- gst_nvmm_convert_prepare_output_buffer; `acquired` is the pool's answer, and the buffer that it gave.
unfoldable pub prepare_output_buffer : Bool × Option Buffer → Buffer → Convert → Prepared
prepare_output_buffer (acquired, out) input s = if s.passthrough then shared else elim s.pool [
  | none ↦ failed
  | some p ↦
      if acquired
      then elim out [
        | none ↦ unset
        | some b ↦ made (record b { pts = input.pts; flags = input.flags })
      ]
      else failed
]

abbrev pub params_of : Convert → TransformParams
params_of s = record {
  src_crop = record { x = s.crop_x; y = s.crop_y; width = s.crop_w; height = s.crop_h };
  dst_crop = no_crop;
  flip = s.flip;
  interpolation = s.interpolation;
  compute = s.compute;
}

abbrev pub is_ok : Result (Unit {0}) → Bool
is_ok (ok a) = true
is_ok (err e) = false

-- gst_nvmm_convert_transform on the surfaces of the two buffers: whether it succeeds, the surface in the output
-- buffer, the session's compute mode, and the surfaces that exist when the two wrappers are gone.
unfoldable pub transform :
    Library → Convert → Option Owned → Option Owned → ℕ → List ℕ → Bool × Option Owned × ℕ × List ℕ
transform run s none dst session live = (false, dst, session, live)
transform run s (some a) none session live = (false, none, session, live)
transform run s (some a) (some b) session live =
    let (result, dst_buf, session') =
      Transform.transform run (params_of s) (owner_of (some a)) (owner_of (some b)) session in
    let (src_surface, src_buf) = release (owner_of (some a)) in
    let (dst_surface, dst_buf') = release dst_buf in
    (is_ok result, dst_surface, session', destroy src_buf (destroy dst_buf' live))

-- What the query holds: the first proposed pool with its parameters, if there is one, and the size of a frame
-- of the caps, if they can be parsed; and the number of a new pool.
pub record Query : Type 0 where
  pub proposed : Option (Option ℕ × ℕ × ℕ × ℕ)
  pub frame_size : Option ℕ
  pub new_pool : ℕ

pub record PoolConfig : Type 0 where
  pub pool : ℕ
  pub size : ℕ
  pub min_buffers : ℕ
  pub max_buffers : ℕ

abbrev fresh : Query → ℕ → ℕ → ℕ → PoolConfig
fresh q size low high = record {
  pool = q.new_pool;
  size = elim q.frame_size [ none ↦ size | some n ↦ n ];
  min_buffers = if ltb low 2 then 2 else low;
  max_buffers = if ltb high 4 then 8 else high;
}

-- The pool that is chosen and its configuration.
unfoldable pub choose_pool : Query → PoolConfig
choose_pool q = elim q.proposed [
  | none ↦ fresh q 0 2 8
  | some (none, size, low, high) ↦ fresh q size low high
  | some (some p, size, low, high) ↦ record (fresh q size low high) { pool = p; size = size }
]

-- gst_buffer_pool_set_active, on the list of the active pools.
abbrev pub deactivate : ℕ → List ℕ → List ℕ
deactivate p [] = []
deactivate p (x ∷ xs) = let rest = deactivate p xs in if x == p then rest else x ∷ rest

abbrev pub activate : ℕ → List ℕ → List ℕ
activate p active = p ∷ deactivate p active

abbrev pub drop_pool : Option ℕ → List ℕ → List ℕ
drop_pool none active = active
drop_pool (some p) active = deactivate p active

-- gst_nvmm_convert_decide_allocation: in passthrough the base class decides, and the element does nothing.
unfoldable pub decide_allocation : Query → Convert → List ℕ → Convert × List ℕ
decide_allocation q s active =
    let chosen = (choose_pool q).pool in
    if s.passthrough
    then (s, active)
    else (record s { pool = some chosen }, activate chosen (drop_pool s.pool active))

-- release_pool
unfoldable pub stop : Convert → List ℕ → Convert × List ℕ
stop s active = (record s { pool = none }, drop_pool s.pool active)
