-- ===== src/Convert/Caps.antt =====
-- gst/nvmmconvert/gstnvmmconvert.cpp: transform_caps, fixate_caps, get_unit_size and propose_allocation. Caps
-- are a list of structures with their features; GStreamer's functions on structures are a parameter.
pub mod Sizes
use gst_nvmm_cpp.Common.{
  ℕ, suc, zero, List, [], ◌∷◌, ◌++◌, Option, none, some, Bool, true, false, ◌&&◌, not, ltb,
  if◌then◌else◌,
}
use gst_nvmm_cpp.Common.Int.{ℤ, pos, negsuc}
use gst_nvmm_cpp.Convert.{VideoInfo, Convert, PoolConfig}

-- The fields that the code names.
pub data Field : Type 0 where
  width height format colorimetry chroma_site : Field

-- G_TYPE_INT, GST_TYPE_INT_RANGE and G_TYPE_STRING, a string being a number; `other` is any other value.
pub data Value : Type 0 where
  int : ℤ → Value
  int_range : ℤ → ℤ → Value
  string other : ℕ → Value

-- gst_structure_get_value, gst_structure_set, gst_structure_remove_field,
-- gst_structure_fixate_field_nearest_int and gst_structure_fixate, which gst_caps_fixate calls.
pub record Structures (S : Type 0) : Type 0 where
  pub value : Field → S → Option Value
  pub set : Field → Value → S → S
  pub remove : Field → S → S
  pub nearest : Field → ℤ → S → S
  pub fixate : S → S

pub data Direction : Type 0 where
  src sink : Direction

-- gst_structure_get_int leaves the 0 that is there where the field is no int.
abbrev pub int_or_0 : Option Value → ℤ
int_or_0 (some (int n)) = n
int_or_0 (some (int_range a b)) = pos 0
int_or_0 (some (string t)) = pos 0
int_or_0 (some (other v)) = pos 0
int_or_0 none = pos 0

abbrev pub has_field : Option Value → Bool
has_field none = false
has_field (some v) = true

abbrev pub is_positive : ℤ → Bool
is_positive (pos zero) = false
is_positive (pos (suc n)) = true
is_positive (negsuc n) = false

module _ {S : Type 0} (L : Structures S) where
  abbrev pub opened : S → S
  opened s =
      let bare = L.remove chroma_site (L.remove colorimetry (L.remove format s)) in
      L.set height (int_range (pos 1) (pos 8192)) (L.set width (int_range (pos 1) (pos 8192)) bare)

  unfoldable pub remove_format_and_rangify : {G : Type 0} → List (S × G) → List (S × G)
  remove_format_and_rangify [] = []
  remove_format_and_rangify ((s, g) ∷ caps) = (opened s, g) ∷ remove_format_and_rangify caps

  -- gst_nvmm_convert_transform_caps; `intersect` is gst_caps_intersect_full with the first caps' order.
  unfoldable pub transform_caps :
      {G : Type 0}
      → (List (S × G) → List (S × G) → List (S × G))
      → List (S × G)
      → Option (List (S × G))
      → List (S × G)
  transform_caps intersect caps none = remove_format_and_rangify caps
  transform_caps intersect caps (some filter) = intersect (remove_format_and_rangify caps) filter

  -- The string of the input, unless the output has a format.
  abbrev pub keep_format : Option Value → S → S
  keep_format (some (string f)) s =
      if not (has_field (L.value format s)) then L.set format (string f) s else s
  keep_format (some (int n)) s = s
  keep_format (some (int_range a b)) s = s
  keep_format (some (other v)) s = s
  keep_format none s = s

  abbrev pub fixed_size : ℤ → ℤ → S → S
  fixed_size w h s = L.nearest height h (L.nearest width w s)

  abbrev pub input_size : S → S → S
  input_size ins s =
      let w = int_or_0 (L.value width ins) in
      let h = int_or_0 (L.value height ins) in
      if is_positive w && is_positive h then fixed_size w h s else s

  -- The fields that are fixed before gst_caps_fixate fixes the others. A crop is at most 8192.
  unfoldable pub choose_fields : Direction → S → Convert → S → S
  choose_fields sink ins s out =
      let out' = keep_format (L.value format ins) out in
      if ltb 0 s.crop_w && ltb 0 s.crop_h
      then fixed_size (pos s.crop_w) (pos s.crop_h) out'
      else input_size ins out'
  choose_fields src ins s out = input_size ins out

  -- gst_nvmm_convert_fixate_caps, on the first structure of the caps and on the other caps, which are not empty.
  unfoldable pub fixate_caps : {G : Type 0} → Direction → S → List (S × G) → Convert → List (S × G)
  fixate_caps dir ins [] s = []
  fixate_caps dir ins ((out, g) ∷ others) s = (L.fixate (choose_fields dir ins s out), g) ∷ []

-- gst_nvmm_convert_get_unit_size, on what the caps are parsed to: whether it succeeds, and the size.
abbrev pub get_unit_size : Option VideoInfo → ℕ → Bool × ℕ
get_unit_size none size = (false, size)
get_unit_size (some i) size = (true, i.size)

-- gst_nvmm_convert_propose_allocation: the pools of the query. `caps` are those of the query, and what they are
-- parsed to; `configured` is the answer of gst_buffer_pool_set_config.
unfoldable pub propose_allocation :
    Option (Option VideoInfo) → ℕ → Bool → List PoolConfig → List PoolConfig
propose_allocation none new_pool configured pools = pools
propose_allocation (some none) new_pool configured pools = pools
propose_allocation (some (some i)) new_pool configured pools =
    if configured
    then pools ++ record { pool = new_pool; size = i.size; min_buffers = 2; max_buffers = 8 } ∷ []
    else pools
