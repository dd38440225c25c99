-- ===== src/Draw.antt =====
-- gst/nvmmdrawdet/gstnvmmdrawdet.cpp: the element that draws detections. Text formatting, binary64
-- arithmetic and the conversion of a float to int are parameters; the calls of CUDA and NvBufSurface are
-- arguments, which say how the call ends.
pub mod Pixels
pub mod Inside
pub mod Output
use gst_nvmm_cpp.Common.{
  ℕ, zero, suc, ◌+◌, ◌-◌, ◌*◌, ◌/◌, ◌%◌, ◌^◌, max, List, [], ◌∷◌, ◌++◌, Option, none, some, Bool,
  true, false, ◌&&◌, ◌||◌, not, get_or, get_elem?, length, leb, ltb, ◌==◌, if◌then◌else◌,
}
use gst_nvmm_cpp.Common.Int.{ℤ, pos, negsuc, add_ℤ, sub_ℤ, lt_ℤ, is_negative}
use gst_nvmm_cpp.Common.Float.{F32, FloatOps}
use gst_nvmm_cpp.Ipc.Protocol.{DetObject}
use gst_nvmm_cpp.DetMeta.{BufferMeta}
use gst_nvmm_cpp.Draw.Pixels.{Store, Color, class_color, draw_rect, draw_text, font_h}

-- `rgba` is the scratch surface and `egl_res` its CUDA resource.
pub record DrawDet : Type 0 where
  pub width : ℕ
  pub height : ℕ
  pub thickness : ℕ
  pub draw_labels : Bool
  pub draw_det : Bool
  pub rgba : Option ℕ
  pub egl_res : Option ℕ
  pub draw_track : Bool
  pub fps_smoothing : ℕ
  pub font_scale_div : ℕ
  pub last_us : ℕ
  pub ema_fps : ℕ
  pub n_frames : ℕ
  pub n_valid : ℕ

-- gst_nvmm_drawdet_init; 0x3FECCCCCCCCCCCCD is 0.9.
abbrev pub init : DrawDet
init = record {
  width = 0;
  height = 0;
  thickness = 3;
  draw_labels = true;
  draw_det = true;
  rgba = none;
  egl_res = none;
  draw_track = true;
  fps_smoothing = 0x3FECCCCCCCCCCCCD;
  font_scale_div = 540;
  last_us = 0;
  ema_fps = 0;
  n_frames = 0;
  n_valid = 0;
}

pub data Property : Type 0 where
  prop_thickness prop_fps_smoothing prop_font_scale_div : ℕ → Property
  prop_draw_labels prop_draw_track prop_draw_det : Bool → Property

unfoldable pub set_property : Property → DrawDet → DrawDet
set_property (prop_thickness v) s = record s { thickness = v }
set_property (prop_draw_labels v) s = record s { draw_labels = v }
set_property (prop_draw_track v) s = record s { draw_track = v }
set_property (prop_draw_det v) s = record s { draw_det = v }
set_property (prop_fps_smoothing v) s = record s { fps_smoothing = v }
set_property (prop_font_scale_div v) s = record s { font_scale_div = v }

-- gst_nvmm_drawdet_transform_size: towards the sink a pointer, towards the source the RGBA frame; the
-- caps' width and height are `none` where the caps have none.
unfoldable pub transform_size : Bool → Option ℤ → Option ℤ → Option ℕ
transform_size true w h = some 8
transform_size false (some (pos w)) (some (pos h)) =
    if w == 0 || h == 0 then none else some (w * h * 4)
transform_size false (some (pos w)) (some (negsuc h)) = none
transform_size false (some (pos w)) none = none
transform_size false (some (negsuc w)) h = none
transform_size false none h = none

-- The calls of one transform: the surface that is created, whether it is mapped, its resource; the
-- input's surface, the conversion, the output's size if it can be mapped, and the copy to the host.
pub record DrawCalls : Type 0 where
  pub created : Option ℕ
  pub mapped : Bool
  pub registered : Option ℕ
  pub source : Bool
  pub converted : Bool
  pub output : Option ℕ
  pub copied : Bool

unfoldable pub ensure_rgba : DrawCalls → DrawDet → Bool × DrawDet
ensure_rgba calls s = elim s.rgba [
  | some r ↦ (true, s)
  | none ↦ elim calls.created [
    | none ↦ (false, s)
    | some r ↦
        let made : DrawDet = record s { rgba = some r } in
        if calls.mapped
        then elim calls.registered [
          | none ↦ (false, made)
          | some e ↦ (true, record made { egl_res = some e })
        ]
        else (false, made)
  ]
]

unfoldable pub stop : DrawDet → DrawDet
stop s = record s { rgba = none; egl_res = none }

pub record ClassEntry : Type 0 where
  pub class_id : ℤ
  pub confidence : F32
  pub fresh : ℕ
  pub label : List ℕ

pub record TrackMeta : Type 0 where
  pub valid : Bool
  pub left : F32
  pub top : F32
  pub width : F32
  pub height : F32
  pub object_score : F32

-- The metas on the input buffer: detections, whether each moves, the classes, and the track.
pub record Metas : Type 0 where
  pub det : Option BufferMeta
  pub motion : Option (List Bool)
  pub classes : Option (List ClassEntry)
  pub track : Option TrackMeta

-- g_snprintf and the conversions; `next_fps` is the new average of the smoothing, the old average
-- and the elapsed time.
pub record Formats : Type 0 where
  pub to_int : F32 → ℤ
  pub object_text : DetObject → Bool → Option ClassEntry → List ℕ
  pub target_text : F32 → List ℕ
  pub hud_text : ℕ → ℕ → ℕ → List ℕ
  pub next_fps : ℕ → ℕ → ℕ → ℕ

abbrev pub no_object : DetObject
no_object = record {
  left = 0;
  top = 0;
  width = 0;
  height = 0;
  class_id = pos 0;
  confidence = 0;
  tracker_id = 0;
  label = [];
}

-- Object `i` of an index-aligned meta; `none` past its end.
abbrev entry {ℓ} : {A : Type ℓ} → Option (List A) → ℕ → Option A
entry none i = none
entry (some xs) i = get_elem? xs i

abbrev is_moving : Option (List Bool) → ℕ → Bool
is_moving m i = elim (entry m i) [ none ↦ false | some b ↦ b ]

abbrev classified : Option (List ClassEntry) → ℕ → Option ClassEntry
classified m i = elim (entry m i) [
  | none ↦ none
  | some c ↦ if is_negative c.class_id then none else some c
]

-- The line of text above `top`, or below it where there is no room.
abbrev text_y : ℤ → ℕ → ℤ
text_y top ts =
    let above = sub_ℤ top (pos (font_h * ts + ts)) in
    if lt_ℤ above (pos ts) then add_ℤ top (pos ts) else above

abbrev pub when : Bool → List Store → List Store
when b stores = if b then stores else []

module _ (F : FloatOps) (T : Formats) (font : ℕ → ℕ → ℕ) where
  abbrev pub scale_of : ℕ → ℕ → F32
  scale_of size infer = if infer == 0 then 0x3F800000 else F.div (F.of_int size) (F.of_int infer)

  unfoldable pub draw_object : DrawDet → Metas → F32 → F32 → ℕ → DetObject → List Store
  draw_object s metas sx sy i o =
      let ts = max 1 (s.height / 360) in
      let moving = is_moving metas.motion i in
      let color = class_color o.class_id in
      let bx = T.to_int (F.mul o.left sx) in
      let by' = T.to_int (F.mul o.top sy) in
      draw_rect s.width s.height bx by' (T.to_int (F.mul o.width sx)) (T.to_int (F.mul o.height sy))
        (if moving then s.thickness * 2 else s.thickness) color
      ++ when s.draw_labels (
          draw_text font s.width s.height (add_ℤ bx (pos ts)) (text_y by' ts)
            (T.object_text o moving (classified metas.classes i)) ts color)

  -- The objects from `i` on, of which `n` are left.
  unfoldable pub draw_objects : DrawDet → Metas → F32 → F32 → ℕ → ℕ → List DetObject → List Store
  draw_objects s metas sx sy zero i objects = []
  draw_objects s metas sx sy (suc n) i objects =
      draw_object s metas sx sy i (get_or objects i no_object)
      ++ draw_objects s metas sx sy n (i + 1) objects

  unfoldable pub draw_meta : DrawDet → Metas → Option BufferMeta → List Store
  draw_meta s metas none = []
  draw_meta s metas (some m) =
      draw_objects s metas (scale_of s.width m.infer_width) (scale_of s.height m.infer_height)
        m.num_objects 0 m.objects

  unfoldable pub draw_dets : DrawDet → Metas → List Store
  draw_dets s metas = when s.draw_det (draw_meta s metas metas.det)

  abbrev cyan : Color
  cyan = record { r = 0; g = 255; b = 255 }

  abbrev green : Color
  green = record { r = 0; g = 255; b = 0 }

  unfoldable pub draw_target : DrawDet → ℕ → TrackMeta → List Store
  draw_target s ts tm =
      let left = T.to_int tm.left in
      let top = T.to_int tm.top in
      draw_rect s.width s.height left top (T.to_int tm.width) (T.to_int tm.height)
        (max 1 s.thickness) cyan
      ++ draw_text font s.width s.height (add_ℤ left (pos ts)) (text_y top ts)
          (T.target_text tm.object_score) ts cyan

  -- The new average of the frame rate at the time `now`.
  unfoldable pub count_frame : ℕ → DrawDet → DrawDet
  count_frame now s = record s {
    ema_fps =
        if s.last_us == 0
        then s.ema_fps
        else T.next_fps s.fps_smoothing s.ema_fps (now - s.last_us);
    last_us = now;
    n_frames = (s.n_frames + 1) % 2 ^ 64;
  }

  abbrev shown : Option TrackMeta → Option TrackMeta
  shown none = none
  shown (some tm) = if tm.valid && F.lt 0 tm.width then some tm else none

  abbrev hud_line : DrawDet → ℕ → List Store
  hud_line s ts =
      draw_text font s.width s.height (pos 8) (pos 8) (T.hud_text s.ema_fps s.n_valid s.n_frames) ts
        green

  -- The target, if there is one, and the line of text, for a frame that is counted.
  unfoldable pub draw_shown : ℕ → Option TrackMeta → DrawDet → List Store × DrawDet
  draw_shown ts none s = (hud_line s ts, s)
  draw_shown ts (some tm) s =
      let valid : DrawDet = record s { n_valid = (s.n_valid + 1) % 2 ^ 64 } in
      (draw_target s ts tm ++ hud_line valid ts, valid)

  unfoldable pub draw_hud : ℕ → Metas → DrawDet → List Store × DrawDet
  draw_hud now metas s =
      draw_shown (max 1 (s.height / s.font_scale_div)) (shown metas.track) (count_frame now s)

  -- What is drawn over the copied frame.
  unfoldable pub overlay : ℕ → Metas → DrawDet → List Store × DrawDet
  overlay now metas s =
      if s.draw_track
      then (let (hud, s') = draw_hud now metas s in (draw_dets s metas ++ hud, s'))
      else (draw_dets s metas, s)

  -- How a transform ends: whether with GST_FLOW_OK, the bytes that are copied into the output from its
  -- start, and the stores after that.
  abbrev pub Outcome : Type 0
  Outcome = (Bool × ℕ × List Store) × DrawDet

  abbrev pub failed : DrawDet → Outcome
  failed s = ((false, 0, []), s)

  -- The end of transform, with the output mapped.
  unfoldable pub draw_into : ℕ → Bool → ℕ → Metas → DrawDet → Outcome
  draw_into size copied now metas s =
      if ltb size (s.width * s.height * 4) then failed s else elim s.egl_res [
        | none ↦ failed s
        | some e ↦
            let (drawn, s') = overlay now metas s in
            if copied then ((true, s.width * s.height * 4, drawn), s') else failed s
      ]

  -- gst_nvmm_drawdet_transform
  unfoldable pub transform : DrawCalls → ℕ → Metas → DrawDet → Outcome
  transform calls now metas s =
      let (ready, s') = ensure_rgba calls s in
      if s.width == 0
      then failed s
      else if ready && (calls.source && calls.converted)
      then elim calls.output [
        | none ↦ failed s'
        | some size ↦ draw_into size calls.copied now metas s'
      ]
      else failed s'
