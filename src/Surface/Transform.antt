-- ===== src/Surface/Transform.antt =====
-- gst/common/nvmm_transform.cpp: the request that goes to NvBufSurfTransform, and what becomes of it.
use Prim.Native.Nat.{bit_or}
use gst_nvmm_cpp.Common.{ℕ, Option, none, some, Bool, ◌&&◌, ltb, if◌then◌else◌}
use gst_nvmm_cpp.Surface.Mock.{BufSurface}
use gst_nvmm_cpp.Surface.Types.{k_invalid_param, k_transform_failed, Result, ok, err}
use gst_nvmm_cpp.Surface.Buffer.{NvmmBuffer}

pub data FlipMethod : Type 0 where
  flip_none rotate_90_cw rotate_180 rotate_90_ccw flip_horizontal : FlipMethod
  flip_upper_right_to_lower_left flip_vertical flip_upper_left_to_lower_right : FlipMethod

pub data Interpolation : Type 0 where
  inter_nearest bilinear five_tap ten_tap smart nicest inter_default : Interpolation

pub data ComputeMode : Type 0 where
  compute_default gpu vic : ComputeMode

pub record CropRect : Type 0 where
  pub x : ℕ
  pub y : ℕ
  pub width : ℕ
  pub height : ℕ

abbrev pub is_valid : CropRect → Bool
is_valid c = ltb 0 c.width && ltb 0 c.height

pub record TransformParams : Type 0 where
  pub src_crop : CropRect
  pub dst_crop : CropRect
  pub flip : FlipMethod
  pub interpolation : Interpolation
  pub compute : ComputeMode

unfoldable pub to_nv_flip : FlipMethod → ℕ
to_nv_flip flip_none = 0
to_nv_flip rotate_90_cw = 1
to_nv_flip rotate_180 = 2
to_nv_flip rotate_90_ccw = 3
to_nv_flip flip_horizontal = 4
to_nv_flip flip_upper_right_to_lower_left = 6
to_nv_flip flip_vertical = 5
to_nv_flip flip_upper_left_to_lower_right = 7

unfoldable pub to_nv_inter : Interpolation → ℕ
to_nv_inter inter_nearest = 0
to_nv_inter bilinear = 1
to_nv_inter five_tap = 2
to_nv_inter ten_tap = 3
to_nv_inter smart = 4
to_nv_inter nicest = 5
to_nv_inter inter_default = 6

unfoldable pub to_nv_compute : ComputeMode → ℕ
to_nv_compute gpu = 1
to_nv_compute vic = 2
to_nv_compute compute_default = 0

pub record TransformRect : Type 0 where
  pub top : ℕ
  pub left : ℕ
  pub width : ℕ
  pub height : ℕ

-- NvBufSurfTransformParams; a null rectangle is `none`.
pub record TransformRequest : Type 0 where
  pub transform_flag : ℕ
  pub transform_flip : ℕ
  pub transform_filter : ℕ
  pub src_rect : Option TransformRect
  pub dst_rect : Option TransformRect

abbrev pub rect_of : CropRect → Option TransformRect
rect_of c =
    if is_valid c
    then some (record { top = c.y; left = c.x; width = c.width; height = c.height })
    else none

abbrev pub flip_flag : FlipMethod → ℕ
flip_flag flip_none = 0
flip_flag f = 8

abbrev pub filter_flag : Interpolation → ℕ
filter_flag inter_default = 0
filter_flag i = 4

abbrev pub filter_of : Interpolation → ℕ
filter_of inter_default = 0
filter_of i = to_nv_inter i

-- The request, with its flags added up in the code's order.
unfoldable pub request : TransformParams → TransformRequest
unfolding to_nv_flip to_nv_inter
request params = record {
  transform_flag =
      bit_or
        (bit_or
          (bit_or (if is_valid params.src_crop then 1 else 0)
            (if is_valid params.dst_crop then 2 else 0))
          (flip_flag params.flip))
        (filter_flag params.interpolation);
  transform_flip = to_nv_flip params.flip;
  transform_filter = filter_of params.interpolation;
  src_rect = rect_of params.src_crop;
  dst_rect = rect_of params.dst_crop;
}

-- The session's compute mode, which is set only on an override.
abbrev pub session_after : ComputeMode → ℕ → ℕ
session_after compute_default session = session
session_after gpu session = to_nv_compute gpu
session_after vic session = to_nv_compute vic

-- NvmmTransform::transform. `run` is NvBufSurfTransform: whether it succeeds, and the destination.
unfoldable pub transform :
    (BufSurface → BufSurface → TransformRequest → Bool × BufSurface)
    → TransformParams
    → NvmmBuffer
    → NvmmBuffer
    → ℕ
    → Result (Unit {0}) × NvmmBuffer × ℕ
unfolding request to_nv_compute
transform run params src dst session = elim src.surface [
  | none ↦ (err k_invalid_param, dst, session)
  | some a ↦ elim dst.surface [
    | none ↦ (err k_invalid_param, dst, session)
    | some b ↦
        let (done, out) = run a.buf b.buf (request params) in
        (
          if done then ok tt else err k_transform_failed,
          record dst { surface = some (record b { buf = out }) },
          session_after params.compute session,
        )
  ]
]

abbrev pub no_crop : CropRect
no_crop = record { x = 0; y = 0; width = 0; height = 0 }

abbrev pub default_params : TransformParams
default_params = record {
  src_crop = no_crop;
  dst_crop = no_crop;
  flip = flip_none;
  interpolation = inter_default;
  compute = compute_default;
}

abbrev pub Library : Type 0
Library = BufSurface → BufSurface → TransformRequest → Bool × BufSurface

-- NvmmTransform::scale, crop_and_scale and convert
unfoldable pub scale : Library → NvmmBuffer → NvmmBuffer → ℕ → Result (Unit {0}) × NvmmBuffer × ℕ
unfolding transform
scale run src dst session = transform run default_params src dst session

unfoldable pub crop_and_scale :
    Library → NvmmBuffer → NvmmBuffer → CropRect → ℕ → Result (Unit {0}) × NvmmBuffer × ℕ
unfolding transform
crop_and_scale run src dst src_crop session =
    transform run (record default_params { src_crop = src_crop }) src dst session

unfoldable pub convert : Library → NvmmBuffer → NvmmBuffer → ℕ → Result (Unit {0}) × NvmmBuffer × ℕ
unfolding transform
convert run src dst session = transform run default_params src dst session
