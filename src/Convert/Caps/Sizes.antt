-- ===== src/Convert/Caps/Sizes.antt =====
-- gst/nvmmconvert/gstnvmmconvert.cpp: the caps that fixate_caps makes of those of transform_caps.
use gst_nvmm_cpp.Common.{
  ℕ, zero, suc, ◌≤◌, inl, inr, Bool-cases, ◌≡◌, refl, ap, ◌∙◌, List, [], ◌∷◌, Option, none, some,
  Bool, true, false, ◌&&◌, ltb, ◌==◌, if◌then◌else◌, arith,
}
use gst_nvmm_cpp.Common.Int.{pos}
use gst_nvmm_cpp.Convert.{Convert}
use gst_nvmm_cpp.Convert.Caps.{
  Field, width, height, format, colorimetry, chroma_site, Value, int, int_range, string, other,
  Structures, Direction, src, sink, opened, is_positive, input_size, keep_format, fixed_size,
  remove_format_and_rangify, transform_caps, choose_fields, fixate_caps,
}

abbrev pub code : Field → ℕ
code width = 0
code height = 1
code format = 2
code colorimetry = 3
code chroma_site = 4

abbrev pub is_fixed : Option Value → Bool
is_fixed none = true
is_fixed (some (int n)) = true
is_fixed (some (int_range a b)) = false
is_fixed (some (string t)) = true
is_fixed (some (other v)) = false

-- What GStreamer documents of its functions.
pub record Documented {S : Type 0} (L : Structures S) : Type 0 where
  pub value-set : (f : Field) (v : Value) (s : S) → L.value f (L.set f v s) ≡ some v
  pub value-set_other :
      (f g : Field) (v : Value) (s : S)
      → (code f == code g) ≡ false
      → L.value f (L.set g v s) ≡ L.value f s
  pub value-remove : (f : Field) (s : S) → L.value f (L.remove f s) ≡ none
  pub value-remove_other :
      (f g : Field) (s : S) → (code f == code g) ≡ false → L.value f (L.remove g s) ≡ L.value f s
  pub value-nearest :
      (f : Field) (a b n : ℕ) (s : S)
      → L.value f s ≡ some (int_range (pos a) (pos b))
      → a ≤ n
      → n ≤ b
      → L.value f (L.nearest f (pos n) s) ≡ some (int (pos n))
  pub value-nearest_other :
      (f g : Field) (n : ℕ) (s : S)
      → (code f == code g) ≡ false
      → L.value f (L.nearest g (pos n) s) ≡ L.value f s
  pub value-fixate :
      (f : Field) (s : S) → is_fixed (L.value f s) ≡ true → L.value f (L.fixate s) ≡ L.value f s

-- The size that the code asks for, and the format.
abbrev pub wanted : Direction → Convert → ℕ → ℕ → ℕ × ℕ
wanted src s w h = (w, h)
wanted sink s w h = if ltb 0 s.crop_w && ltb 0 s.crop_h then (s.crop_w, s.crop_h) else (w, h)

abbrev pub kept : Direction → ℕ → Option Value
kept src f = none
kept sink f = some (string f)

is_positive_lem : (n : ℕ) → 1 ≤ n → is_positive (pos n) ≡ true
is_positive_lem zero l = ground (arith, l)
is_positive_lem (suc n) l = refl

module _ {S : Type 0} (L : Structures S) where
  abbrev any_size : Value
  any_size = int_range (pos 1) (pos 8192)

  -- A structure with any size, and the given format.
  record Open (o : Option Value) (s : S) : Type 0 where
    wide : L.value width s ≡ some any_size
    high : L.value height s ≡ some any_size
    formed : L.value format s ≡ o

  pub record Sized (o : Option Value) (w h : ℕ) (s : S) : Type 0 where
    pub wide : L.value width s ≡ some (int (pos w))
    pub high : L.value height s ≡ some (int (pos h))
    pub formed : L.value format s ≡ o

  -- A structure with a size and a format.
  abbrev pub Is : ℕ → ℕ → ℕ → S → Type 0
  Is w h f s = Sized (some (string f)) w h s

module _ {S : Type 0} (L : Structures S) (D : Documented L) where
  opened-Open : (s : S) → Open L none (opened L s)
  opened-Open s = record {
    wide = D.value-set_other width height _ _ refl ∙ D.value-set width _ _;
    high = D.value-set height _ _;
    formed =
        D.value-set_other format height _ _ refl
        ∙ D.value-set_other format width _ _ refl
        ∙ D.value-remove_other format chroma_site _ refl
        ∙ D.value-remove_other format colorimetry _ refl
        ∙ D.value-remove format s;
  }

  keep_format-Open :
      (f : ℕ) (s : S) → Open L none s → Open L (some (string f)) (keep_format L (some (string f)) s)
  keep_format-Open f s o = rw o.formed (record {
    wide = D.value-set_other width format _ _ refl ∙ o.wide;
    high = D.value-set_other height format _ _ refl ∙ o.high;
    formed = D.value-set format _ s;
  })

  fixed_size-Sized :
      (o : Option Value) (w h : ℕ) (s : S)
      → 1 ≤ w
      → w ≤ 8192
      → 1 ≤ h
      → h ≤ 8192
      → Open L o s
      → Sized L o w h (fixed_size L (pos w) (pos h) s)
  fixed_size-Sized o w h s lw uw lh uh p = record {
    wide =
        D.value-nearest_other width height h _ refl ∙ D.value-nearest width 1 8192 w s p.wide lw uw;
    high =
        D.value-nearest height 1 8192 h _ (D.value-nearest_other height width w s refl ∙ p.high) lh
          uh;
    formed =
        D.value-nearest_other format height h _ refl
        ∙ D.value-nearest_other format width w s refl
        ∙ p.formed;
  }

  input_size_lem :
      (w h f : ℕ) (ins out : S)
      → Is L w h f ins
      → 1 ≤ w
      → 1 ≤ h
      → input_size L ins out ≡ fixed_size L (pos w) (pos h) out
  input_size_lem w h f ins out i lw lh =
      rw (i.wide, i.high, is_positive_lem w lw, is_positive_lem h lh) refl

  choose_fields-Sized :
      (dir : Direction) (w h f : ℕ) (ins out : S) (s : Convert)
      → Is L w h f ins
      → 1 ≤ w
      → w ≤ 8192
      → 1 ≤ h
      → h ≤ 8192
      → s.crop_w ≤ 8192
      → s.crop_h ≤ 8192
      → Open L none out
      → let (w', h') = wanted dir s w h in
        Sized L (kept dir f) w' h' (choose_fields L dir ins s out)
  unfolding choose_fields
  choose_fields-Sized src w h f ins out s i lw uw lh uh cw ch o =
      rw (input_size_lem w h f ins out i lw lh) (fixed_size-Sized none w h out lw uw lh uh o)
  choose_fields-Sized sink w h f ins out s i lw uw lh uh cw ch o =
      rw i.formed (elim (Bool-cases (ltb 0 s.crop_w && ltb 0 s.crop_h)) [
        | inl e ↦ rw e (
            fixed_size-Sized (some (string f)) s.crop_w s.crop_h _ (ground (arith, e)) cw
              (ground (arith, e)) ch (keep_format-Open f out o))
        | inr e ↦
            rw (e, input_size_lem w h f ins (keep_format L (some (string f)) out) i lw lh)
              (fixed_size-Sized (some (string f)) w h _ lw uw lh uh (keep_format-Open f out o))
      ])

  fixate-Sized :
      (dir : Direction) (w h f : ℕ) (s : S)
      → Sized L (kept dir f) w h s
      → Sized L (kept dir f) w h (L.fixate s)
  fixate-Sized dir w h f s p = record {
    wide = D.value-fixate width s (ap is_fixed p.wide) ∙ p.wide;
    high = D.value-fixate height s (ap is_fixed p.high) ∙ p.high;
    formed = D.value-fixate format s (ap is_fixed p.formed ∙ fixed dir) ∙ p.formed;
  }
    where
      fixed : (d : Direction) → is_fixed (kept d f) ≡ true
      fixed src = refl
      fixed sink = refl

  module _ {G : Type 0} (g : G) (intersect : List (S × G) → List (S × G) → List (S × G)) where
    -- Without a filter, fixate_caps makes one structure of the caps that transform_caps gives for an input
    -- structure with a format and a size of 1 to 8192 each way, and keeps its features. Downstream its size is
    -- the crop's, where neither side of the crop is 0, or the input's, and its format is the input's. Upstream
    -- its size is the input's, and it has no format.
    pub fixate_caps-transform_caps :
        (dir : Direction) (w h f : ℕ) (ins : S) (s : Convert)
        → Is L w h f ins
        → 1 ≤ w
        → w ≤ 8192
        → 1 ≤ h
        → h ≤ 8192
        → s.crop_w ≤ 8192
        → s.crop_h ≤ 8192
        → let (w', h') = wanted dir s w h in
          (out : S) × (fixate_caps L dir ins (transform_caps L intersect ((ins, g) ∷ []) none) s
            ≡ (out, g) ∷ [])
          × Sized L (kept dir f) w' h' out
    unfolding fixate_caps transform_caps remove_format_and_rangify
    fixate_caps-transform_caps dir w h f ins s i lw uw lh uh cw ch =
        let (w', h') = wanted dir s w h in
        (
          L.fixate (choose_fields L dir ins s (opened L ins)),
          refl,
          fixate-Sized dir w' h' f _ (
              choose_fields-Sized dir w h f ins (opened L ins) s i lw uw lh uh cw ch
                (opened-Open ins)),
        )
