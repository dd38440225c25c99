-- ===== src/Common/Int.antt =====
-- Signed integers over the native numbers, and the 32-bit counters of the shared header.
use Prim.Native.Nat.{ℕ, zero, suc, ◌+◌, ◌-◌, ◌*◌, ◌^◌, ◌<◌}
use mathlib.Core.Path.{◌≡◌, refl}
use mathlib.Core.Bool.{Bool, true, false}
use native.Mathlib.Omega.{arith}
use gst_nvmm_cpp.Common.Tests.{◌==◌, leb, if◌then◌else◌}

-- `negsuc n` is -(n + 1).
pub data ℤ : Type 0 where
  pos : ℕ → ℤ
  negsuc : ℕ → ℤ

abbrev pub eq_ℤ : ℤ → ℤ → Bool
eq_ℤ (pos a) (pos b) = a == b
eq_ℤ (pos a) (negsuc b) = false
eq_ℤ (negsuc a) (pos b) = false
eq_ℤ (negsuc a) (negsuc b) = a == b

abbrev pub is_negative : ℤ → Bool
is_negative (pos a) = false
is_negative (negsuc a) = true

-- int32_t + 1 and - 1, as the atomic built-ins compute them: both wrap.
unfoldable pub inc32 : ℤ → ℤ
inc32 (pos n) = if n == 2 ^ 31 - 1 then negsuc (2 ^ 31 - 1) else pos (n + 1)
inc32 (negsuc zero) = pos 0
inc32 (negsuc (suc n)) = negsuc n

unfoldable pub dec32 : ℤ → ℤ
dec32 (pos zero) = negsuc 0
dec32 (pos (suc n)) = pos n
dec32 (negsuc n) = if n == 2 ^ 31 - 1 then pos (2 ^ 31 - 1) else negsuc (n + 1)

pub inc32-pos : (n : ℕ) → n < 2 ^ 31 - 1 → inc32 (pos n) ≡ pos (n + 1)
unfolding inc32
inc32-pos n h = ground arith

pub dec32-pos : (n : ℕ) → dec32 (pos (suc n)) ≡ pos n
unfolding dec32
dec32-pos n = refl

-- a - b
abbrev pub sub_nat : ℕ → ℕ → ℤ
sub_nat a b = if leb b a then pos (a - b) else negsuc (b - a - 1)

abbrev pub add_ℤ : ℤ → ℤ → ℤ
add_ℤ (pos a) (pos b) = pos (a + b)
add_ℤ (pos a) (negsuc b) = sub_nat a (b + 1)
add_ℤ (negsuc a) (pos b) = sub_nat b (a + 1)
add_ℤ (negsuc a) (negsuc b) = negsuc (a + b + 1)

abbrev pub neg_ℤ : ℤ → ℤ
neg_ℤ (pos a) = sub_nat 0 a
neg_ℤ (negsuc a) = pos (a + 1)

abbrev pub sub_ℤ : ℤ → ℤ → ℤ
sub_ℤ a b = add_ℤ a (neg_ℤ b)

abbrev pub mul_ℤ : ℤ → ℤ → ℤ
mul_ℤ (pos a) (pos b) = pos (a * b)
mul_ℤ (pos a) (negsuc b) = neg_ℤ (pos (a * (b + 1)))
mul_ℤ (negsuc a) (pos b) = neg_ℤ (pos ((a + 1) * b))
mul_ℤ (negsuc a) (negsuc b) = pos ((a + 1) * (b + 1))

abbrev pub lt_ℤ : ℤ → ℤ → Bool
lt_ℤ a b = is_negative (sub_ℤ a b)

-- MAX(0, a)
abbrev pub to_nat : ℤ → ℕ
to_nat (pos a) = a
to_nat (negsuc a) = 0

-- std::min
abbrev pub min_ℤ : ℤ → ℤ → ℤ
min_ℤ a b = if lt_ℤ b a then b else a
