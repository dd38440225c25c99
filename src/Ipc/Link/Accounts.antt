-- ===== src/Ipc/Link/Accounts.antt =====
-- The counters `ref_counts` of the header against the references that a consumer's ring holds.
use gst_nvmm_cpp.Common.{
  ℕ, zero, suc, ◌+◌, ◌-◌, ◌^◌, ◌≤◌, ◌<◌, ◌≡◌, refl, ◌∙◌, ◌⊎◌, List, [], ◌∷◌, Option, none, some,
  Bool, true, false, set, get_or, length, length-set, ◌==◌, ==_iff, if◌then◌else◌, arith, subst,
}
use gst_nvmm_cpp.Common.Int.{ℤ, pos, negsuc, inc32, dec32, is_negative}
use gst_nvmm_cpp.Ipc.Protocol.{pool_capacity}
use gst_nvmm_cpp.Ipc.Sink.Render.{ref_count}
use gst_nvmm_cpp.Ipc.AppSrc.State.{RefSlot, no_ref, release_delay}
use gst_nvmm_cpp.Ipc.AppSrc.Lifecycle.{drop_ref}
use gst_nvmm_cpp.Ipc.AppSrc.Ring.{
  weight, held, weight-le-one, held-le-length, held-set, held-get_or,
}

-- A counter is the number of references held, or -1 where the writer has the slot and nobody else.
abbrev pub SlotOk : ℕ → ℤ → Type 0
SlotOk h v = (v ≡ pos h) ⊎ ((v ≡ negsuc 0) × (h ≡ 0))

pub record Accounts (ring : List RefSlot) (refs : List ℤ) : Type 0 where
  pub width : length refs ≡ pool_capacity
  pub slots : (i : ℕ) → i < pool_capacity → SlotOk (held i ring) (ref_count refs i)

pub ref_count-set :
    (refs : List ℤ) (k i : ℕ) (v : ℤ)
    → i < length refs
    → ref_count (set refs k v) i ≡ (if k == i then v else ref_count refs i)
ref_count-set [] k i v h = absurd (omega arith)
ref_count-set (x ∷ refs) zero zero v h = refl
ref_count-set (x ∷ refs) zero (suc i) v h = ground arith
ref_count-set (x ∷ refs) (suc k) zero v h = ground arith
ref_count-set (x ∷ refs) (suc k) (suc i) v h = ref_count-set refs k i v (omega arith) ∙ ground arith

pub ref_count-drop_ref :
    (r : RefSlot) (refs : List ℤ) (i : ℕ)
    → i < length refs
    → ref_count (drop_ref r refs) i
      ≡ (if weight i r == 1 then dec32 (ref_count refs i) else ref_count refs i)
ref_count-drop_ref r refs i h = dropped r.active r.ptr
  where
    dropped :
        (a : Bool) (p : Option ℕ)
        → ref_count (drop_ref (record { ptr = p; active = a }) refs) i ≡ (
            if weight i (record { ptr = p; active = a }) == 1
            then dec32 (ref_count refs i)
            else ref_count refs i)
    dropped false p = refl
    dropped true none = refl
    dropped true (some j) = ref_count-set refs j i _ h ∙ ground arith

slot_rotated :
    (h w : ℕ) (same : Bool) (v : ℤ)
    → w ≤ h
    → w ≤ 1
    → h < 2 ^ 31 - 1
    → SlotOk h v
    → (same ≡ true → is_negative v ≡ false)
    → let v1 = (if same then inc32 v else v) in
      SlotOk (h + (if same then 1 else 0) - w) (if w == 1 then dec32 v1 else v1)
unfolding inc32 dec32
slot_rotated h w true (pos n) wh w1 hb ok ne = ground arith
slot_rotated h w false (pos n) wh w1 hb ok ne = ground arith
slot_rotated h w true (negsuc n) wh w1 hb ok ne = ground arith
slot_rotated h w false (negsuc n) wh w1 hb ok ne = ground arith

-- The same where the writer has no slot.
slot_rotated_pos :
    (h w : ℕ) (same : Bool)
    → w ≤ h
    → w ≤ 1
    → h < 2 ^ 31 - 1
    → let v1 = (if same then inc32 (pos h) else pos h) in
      (if w == 1 then dec32 v1 else v1) ≡ pos (h + (if same then 1 else 0) - w)
unfolding inc32 dec32
slot_rotated_pos h w true wh w1 hb = ground arith
slot_rotated_pos h w false wh w1 hb = ground arith

pub length-drop_ref : (r : RefSlot) (refs : List ℤ) → length (drop_ref r refs) ≡ length refs
length-drop_ref r refs = dropped r.active r.ptr
  where
    dropped :
        (a : Bool) (p : Option ℕ)
        → length (drop_ref (record { ptr = p; active = a }) refs) ≡ length refs
    dropped false p = refl
    dropped true none = refl
    dropped true (some j) = length-set refs j _

module _ (ring : List RefSlot) (head idx : ℕ) (refs : List ℤ) (len : length ring ≡ release_delay)
    (lt : head < release_delay) (free : is_negative (ref_count refs idx) ≡ false)
    (a : Accounts ring refs) where
  abbrev old : RefSlot
  old = get_or ring head no_ref

  abbrev taken : List ℤ
  taken = set refs idx (inc32 (ref_count refs idx))

  held_rotated :
      (i : ℕ)
      → held i (set ring head (record { ptr = some idx; active = true }))
        ≡ held i ring + (if idx == i then 1 else 0) - weight i old
  held_rotated i =
      omega (arith, held-set i head (record { ptr = some idx; active = true }) ring (omega arith))

  value_rotated :
      (i : ℕ)
      → i < pool_capacity
      → ref_count (drop_ref old taken) i ≡ (
          let v1 = (if idx == i then inc32 (ref_count refs i) else ref_count refs i) in
          if weight i old == 1 then dec32 v1 else v1)
  value_rotated i h =
      rw
        (
          ref_count-drop_ref old taken i
              (omega (arith, a.width, length-set refs idx (inc32 (ref_count refs idx)))),
          ref_count-set refs idx i (inc32 (ref_count refs idx)) (omega (arith, a.width)),
        )
        (ground arith)

  -- A ring rotation on a slot that the writer does not hold keeps the accounts.
  pub rotate-Accounts :
      Accounts (set ring head (record { ptr = some idx; active = true })) (drop_ref old taken)
  rotate-Accounts = record {
    width = length-drop_ref old taken ∙ (length-set refs idx _ ∙ a.width);
    slots = λ i h.
        rw (held_rotated i, value_rotated i h)
          (slot_rotated (held i ring) (weight i old) (idx == i) (ref_count refs i)
            (held-get_or i head ring) (weight-le-one i old) (omega (arith, held-le-length i ring))
            (a.slots i h)
            (λ e. subst (λ j. is_negative (ref_count refs j) ≡ false) ((==_iff idx i).0 e) free));
  }

  -- A counter that equals the number of references held does so after the rotation.
  pub rotate-exact :
      (i : ℕ)
      → i < pool_capacity
      → ref_count refs i ≡ pos (held i ring)
      → ref_count (drop_ref old taken) i
        ≡ pos (held i (set ring head (record { ptr = some idx; active = true })))
  rotate-exact i h e =
      rw (held_rotated i, value_rotated i h, e)
        (slot_rotated_pos (held i ring) (weight i old) (idx == i) (held-get_or i head ring)
          (weight-le-one i old) (omega (arith, held-le-length i ring)))
