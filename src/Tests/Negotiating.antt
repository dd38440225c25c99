-- ===== src/Tests/Negotiating.antt =====
-- gst/nvmmconvert/gstnvmmconvert.cpp: caps whose fields are a function.
use gst_nvmm_cpp.Common.{
  ℕ, ◌≡◌, ◌≤◌, true, false, refl, ap, ◌∙◌, [], ◌∷◌, Option, none, some, min, max, ◌==◌, ==_refl,
  if◌then◌else◌, arith,
}
use gst_nvmm_cpp.Common.Int.{ℤ, pos}
use gst_nvmm_cpp.Convert.{Convert, init}
use gst_nvmm_cpp.Convert.Caps.{
  Field, width, height, format, Value, int, int_range, string, other, Structures, sink,
  transform_caps, fixate_caps,
}
use gst_nvmm_cpp.Convert.Caps.Sizes.{code, Documented, is_fixed, Sized, fixate_caps-transform_caps}

abbrev Fields : Type 0
Fields = Field → Option Value

abbrev written : Field → Option Value → Fields → Fields
written f o s = λ g. if code g == code f then o else s g

abbrev near : ℤ → Option Value → Option Value
near (pos n) (some (int_range (pos a) (pos b))) = some (int (pos (max a (min n b))))
near n o = o

abbrev first_of : Option Value → Option Value
first_of (some (int_range a b)) = some (int a)
first_of o = o

abbrev fields : Structures Fields
fields = record {
  value = λ f s. s f;
  set = λ f v s. written f (some v) s;
  remove = λ f s. written f none s;
  nearest = λ f n s. written f (near n (s f)) s;
  fixate = λ s f. first_of (s f);
}

at : (f : Field) (o : Option Value) (s : Fields) → written f o s f ≡ o
at f o s = rw (==_refl (code f)) refl

at_other :
    (f g : Field) (o : Option Value) (s : Fields)
    → (code f == code g) ≡ false
    → written g o s f ≡ s f
at_other f g o s e = rw e refl

first_of_lem : (o : Option Value) → is_fixed o ≡ true → first_of o ≡ o
first_of_lem none e = refl
first_of_lem (some (int n)) e = refl
first_of_lem (some (int_range a b)) e = ground (arith, e)
first_of_lem (some (string t)) e = refl
first_of_lem (some (other v)) e = refl

near_lem :
    (a b n : ℕ)
    → a ≤ n
    → n ≤ b
    → near (pos n) (some (int_range (pos a) (pos b))) ≡ some (int (pos n))
near_lem a b n l u =
    let e : max a (min n b) ≡ n = omega (arith, l, u) in ap (λ m. some (int (pos m))) e

fields-Documented : Documented fields
fields-Documented = record {
  value-set = λ f v s. at f (some v) s;
  value-set_other = λ f g v s e. at_other f g (some v) s e;
  value-remove = λ f s. at f none s;
  value-remove_other = λ f g s e. at_other f g none s e;
  value-nearest =
      λ f a b n s e l u. at f (near (pos n) (s f)) s ∙ ap (near (pos n)) e ∙ near_lem a b n l u;
  value-nearest_other = λ f g n s e. at_other f g (near (pos n) (s g)) s e;
  value-fixate = λ f s e. first_of_lem (s f) e;
}

abbrev nv12 : Fields
nv12 =
    written width (some (int (pos 1920)))
      (written height (some (int (pos 1080))) (written format (some (string 7)) (λ f. none)))

abbrev cropping : Convert
cropping = record init { crop_w = 640; crop_h = 480 }

abbrev features : ℕ
features = 1

-- The crop gives the size.
fixate_caps-transform_caps_example :
    (out : Fields) × (fixate_caps fields sink nv12
        (transform_caps fields (λ a b. a) ((nv12, features) ∷ []) none)
        cropping
      ≡ (out, features) ∷ [])
    × Sized fields (some (string 7)) 640 480 out
fixate_caps-transform_caps_example =
    fixate_caps-transform_caps fields fields-Documented features (λ a b. a) sink 1920 1080 7 nv12
      cropping (record { wide = refl; high = refl; formed = refl }) (omega arith) (omega arith)
      (omega arith) (omega arith) (omega arith) (omega arith)
