-- ===== src/Draw/Output.antt =====
-- gst/nvmmdrawdet/gstnvmmdrawdet.cpp: what transform does to the output buffer.
use gst_nvmm_cpp.Common.{
  ℕ, zero, suc, ◌+◌, ◌*◌, ◌/◌, max, ◌≤◌, ◌<◌, ◌≡◌, refl, ◌⊎◌, inl, inr, List, [], ◌∷◌, ◌++◌, Option,
  none, some, Bool, true, false, ◌&&◌, All, All-append, get_or, ltb, ◌==◌, if◌then◌else◌, arith,
}
use gst_nvmm_cpp.Common.Float.{F32, FloatOps}
use gst_nvmm_cpp.Ipc.Protocol.{DetObject}
use gst_nvmm_cpp.DetMeta.{BufferMeta}
use gst_nvmm_cpp.Draw.Pixels.{Store}
use gst_nvmm_cpp.Draw.Inside.{Inside, draw_rect-Inside, draw_text-Inside}
use gst_nvmm_cpp.Draw.{
  DrawDet, DrawCalls, ensure_rgba, Metas, TrackMeta, Formats, no_object, draw_object, draw_objects,
  draw_meta, draw_dets, draw_target, count_frame, shown, draw_shown, draw_hud, overlay, draw_into,
  failed, transform, when,
}

-- Either nothing is written, and the flow is an error; or the output was mapped, and it holds what is
-- copied and drawn.
abbrev pub Contained : Option ℕ → Bool × ℕ × List Store → Type 0
Contained output (ok, copied, stores) =
    ((ok ≡ false) × (copied ≡ 0) × (stores ≡ []))
    ⊎ ((ok ≡ true)
        × ((size : ℕ) × (output ≡ some size) × (copied ≤ size) × All (λ st. st.0 < size) stores))

module _ (F : FloatOps) (T : Formats) (font : ℕ → ℕ → ℕ) where
  when-Inside :
      (s : DrawDet) (b : Bool) (stores : List Store)
      → All (Inside s.width s.height) stores
      → All (Inside s.width s.height) (when b stores)
  when-Inside s true stores a = a
  when-Inside s false stores a = tt

  draw_object-Inside :
      (s : DrawDet) (metas : Metas) (sx sy : F32) (i : ℕ) (o : DetObject)
      → All (Inside s.width s.height) (draw_object F T font s metas sx sy i o)
  unfolding draw_object
  draw_object-Inside s metas sx sy i o =
      All-append (Inside s.width s.height) _ _ (draw_rect-Inside s.width s.height _ _ _ _ _ _)
        (when-Inside s s.draw_labels _ (draw_text-Inside font s.width s.height _ _ _ _ _))

  draw_objects-Inside :
      (s : DrawDet) (metas : Metas) (sx sy : F32) (n i : ℕ) (objects : List DetObject)
      → All (Inside s.width s.height) (draw_objects F T font s metas sx sy n i objects)
  unfolding draw_objects
  draw_objects-Inside s metas sx sy zero i objects = tt
  draw_objects-Inside s metas sx sy (suc n) i objects =
      All-append (Inside s.width s.height) _ _
        (draw_object-Inside s metas sx sy i (get_or objects i no_object))
        (draw_objects-Inside s metas sx sy n (i + 1) objects)

  draw_meta-Inside :
      (s : DrawDet) (metas : Metas) (m : Option BufferMeta)
      → All (Inside s.width s.height) (draw_meta F T font s metas m)
  unfolding draw_meta
  draw_meta-Inside s metas none = tt
  draw_meta-Inside s metas (some m) = draw_objects-Inside s metas _ _ m.num_objects 0 m.objects

  draw_dets-Inside :
      (s : DrawDet) (metas : Metas) → All (Inside s.width s.height) (draw_dets F T font s metas)
  unfolding draw_dets
  draw_dets-Inside s metas = when-Inside s s.draw_det _ (draw_meta-Inside s metas metas.det)

  draw_target-Inside :
      (s : DrawDet) (ts : ℕ) (tm : TrackMeta)
      → All (Inside s.width s.height) (draw_target F T font s ts tm)
  unfolding draw_target
  draw_target-Inside s ts tm =
      All-append (Inside s.width s.height) _ _ (draw_rect-Inside s.width s.height _ _ _ _ _ _)
        (draw_text-Inside font s.width s.height _ _ _ _ _)

  draw_shown-Inside :
      (ts : ℕ) (tm : Option TrackMeta) (s : DrawDet)
      → All (Inside s.width s.height) (draw_shown F T font ts tm s).0
  unfolding draw_shown
  draw_shown-Inside ts none s = draw_text-Inside font s.width s.height _ _ _ _ _
  draw_shown-Inside ts (some tm) s =
      All-append (Inside s.width s.height) _ _ (draw_target-Inside s ts tm)
        (draw_text-Inside font s.width s.height _ _ _ _ _)

  overlay-Inside :
      (now : ℕ) (metas : Metas) (s : DrawDet)
      → All (Inside s.width s.height) (overlay F T font now metas s).0
  unfolding overlay draw_hud count_frame
  overlay-Inside now metas s = by s.draw_track
    where
      hud : List Store × DrawDet
      hud = draw_hud F T font now metas s

      by :
          (b : Bool)
          → All
              (Inside s.width s.height)
              (if◌then◌else◌ {A = List Store × DrawDet} b
                (draw_dets F T font s metas ++ hud.0, hud.1)
                (draw_dets F T font s metas, s)).0
      by true = All-append (Inside s.width s.height) _ _ (draw_dets-Inside s metas) (
          draw_shown-Inside (max 1 (s.height / s.font_scale_div)) (shown F T font metas.track)
            (count_frame F T font now s))
      by false = draw_dets-Inside s metas

  within :
      (size w h : ℕ) (stores : List Store)
      → w * h * 4 ≤ size
      → All (Inside w h) stores
      → All (λ st. st.0 < size) stores
  within size w h [] le a = tt
  within size w h (st ∷ stores) le a = (omega (arith, le, a.0), within size w h stores le a.1)

  draw_into-Contained :
      (size : ℕ) (copied : Bool) (now : ℕ) (metas : Metas) (s : DrawDet)
      → Contained (some size) (draw_into F T font size copied now metas s).0
  unfolding draw_into
  draw_into-Contained size copied now metas s =
      by (ltb size (s.width * s.height * 4)) refl s.egl_res copied
    where
      by :
          (b : Bool)
          → ltb size (s.width * s.height * 4) ≡ b
          → (egl : Option ℕ) (c : Bool)
          → Contained
              (some size)
              (if b then failed F T font s else elim egl [
                | none ↦ failed F T font s
                | some e ↦
                    let (drawn, s') = overlay F T font now metas s in
                    if c then ((true, s.width * s.height * 4, drawn), s') else failed F T font s
              ]).0
      by true e egl c = inl (refl, refl, refl)
      by false e none c = inl (refl, refl, refl)
      by false e (some r) false = inl (refl, refl, refl)
      by false e (some r) true =
          let le : s.width * s.height * 4 ≤ size = ground (arith, e) in
          inr
            (refl, (size, refl, le, within size s.width s.height _ le (overlay-Inside now metas s)))

  -- Whatever the library's calls answer and whatever the metas say, with coordinates anywhere, transform
  -- writes nothing and fails, or writes only into the output buffer that was mapped.
  pub transform-Contained :
      (calls : DrawCalls) (now : ℕ) (metas : Metas) (s : DrawDet)
      → Contained calls.output (transform F T font calls now metas s).0
  unfolding transform
  transform-Contained calls now metas s =
      by (s.width == 0) ((ensure_rgba calls s).0 && (calls.source && calls.converted)) calls.output
    where
      by :
          (a b : Bool) (output : Option ℕ)
          → Contained output
              (if a
                then failed F T font s
                else if b
                then elim output [
                  | none ↦ failed F T font (ensure_rgba calls s).1
                  | some size ↦
                      draw_into F T font size calls.copied now metas (ensure_rgba calls s).1
                ]
                else failed F T font (ensure_rgba calls s).1).0
      by true b output = inl (refl, refl, refl)
      by false false output = inl (refl, refl, refl)
      by false true none = inl (refl, refl, refl)
      by false true (some size) =
          draw_into-Contained size calls.copied now metas (ensure_rgba calls s).1
