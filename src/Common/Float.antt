-- ===== src/Common/Float.antt =====
-- Binary32 numbers. The code moves them and hands them to the processor's operations, which are a
-- parameter: a number is its bit pattern, and no law of the operations is assumed here.
use Prim.Native.Nat.{ℕ, ◌+◌, ◌-◌, ◌*◌, ◌/◌}
use mathlib.Core.Bool.{Bool}
use gst_nvmm_cpp.Common.Tests.{ltb, leb, if◌then◌else◌}

abbrev pub F32 : Type 0
F32 = ℕ

-- `le a b` is not `not (lt b a)`: both are false at a NaN.
pub record FloatOps : Type 0 where
  pub of_int : ℕ → F32
  pub add : F32 → F32 → F32
  pub sub : F32 → F32 → F32
  pub mul : F32 → F32 → F32
  pub div : F32 → F32 → F32
  pub hypot : F32 → F32 → F32
  pub lt : F32 → F32 → Bool
  pub le : F32 → F32 → Bool

-- std::max and std::min
abbrev pub fmax : FloatOps → F32 → F32 → F32
fmax F a b = if F.lt a b then b else a

abbrev pub fmin : FloatOps → F32 → F32 → F32
fmin F a b = if F.lt b a then b else a

-- Operations that can be run: those of the whole numbers.
abbrev pub whole : FloatOps
whole = record {
  of_int = λ n. n;
  add = λ a b. a + b;
  sub = λ a b. a - b;
  mul = λ a b. a * b;
  div = λ a b. a / b;
  hypot = λ a b. a + b;
  lt = ltb;
  le = leb;
}
