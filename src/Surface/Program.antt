-- ===== src/Surface/Program.antt =====
-- Programs that create, move and destroy buffers (gst/common/nvmm_buffer.cpp).
use gst_nvmm_cpp.Common.{
  ℕ, zero, suc, ◌+◌, ◌-◌, ◌≤◌, ◌<◌, ◌≡◌, ◌≢◌, refl, ◌∙◌, ap, List, [], ◌∷◌, Option, none, some, not,
  ◌&&◌, arith, length, set, get_or, length-set, get_or-set_ne, if◌then◌else◌, ◌==◌, ltb,
}
use gst_nvmm_cpp.Ipc.Os.{erase}
use gst_nvmm_cpp.Surface.Buffer.{NvmmBuffer, Owned, owner_of, destroy, move_from, move_assign}

-- The buffers in scope, and the surfaces that exist.
pub record Program : Type 0 where
  pub vars : List NvmmBuffer
  pub live : List ℕ

pub data Op : Type 0 where
  creates : Owned → Op
  constructs : ℕ → Op
  assigns : ℕ → ℕ → Op
  destroys : ℕ → Op

abbrev pub nobody : NvmmBuffer
nobody = owner_of none

abbrev pub var : List NvmmBuffer → ℕ → NvmmBuffer
var vars i = get_or vars i nobody

-- A destroyed buffer leaves an empty place. An assignment of a buffer to itself does nothing.
unfoldable pub run_op : Op → Program → Program
run_op (creates s) p = record { vars = owner_of (some s) ∷ p.vars; live = s.handle ∷ p.live }
run_op (constructs j) p =
    let (made, old) = move_from (var p.vars j) in record p { vars = made ∷ set p.vars j old }
run_op (assigns i j) p =
    if not (i == j) && (ltb i (length p.vars) && ltb j (length p.vars))
    then (let (a, b, live) = move_assign (var p.vars i) (var p.vars j) p.live in
        record { vars = set (set p.vars i a) j b; live = live })
    else p
run_op (destroys i) p = record { vars = set p.vars i nobody; live = destroy (var p.vars i) p.live }

unfoldable pub run : List Op → Program → Program
run [] p = p
run (op ∷ ops) p = run ops (run_op op p)

-- How often a surface is owned, and how often it exists.
abbrev pub owns : ℕ → NvmmBuffer → ℕ
owns h b = elim b.surface [ none ↦ 0 | some s ↦ if s.handle == h then 1 else 0 ]

abbrev pub owners : ℕ → List NvmmBuffer → ℕ
owners h [] = 0
owners h (b ∷ bs) = owns h b + owners h bs

abbrev pub count : ℕ → List ℕ → ℕ
count h [] = 0
count h (x ∷ xs) = (if x == h then 1 else 0) + count h xs

count-erase :
    (h k : ℕ) (xs : List ℕ) → count h (erase k xs) ≡ count h xs - (if k == h then 1 else 0)
count-erase h k [] = ground arith
count-erase h k (x ∷ xs) = ground (arith, count-erase h k xs)

count-destroy :
    (h : ℕ) (b : NvmmBuffer) (live : List ℕ) → count h (destroy b live) ≡ count h live - owns h b
count-destroy h b live = gone b.surface
  where
    gone :
        (s : Option Owned)
        → count h (destroy (record b { surface = s }) live)
          ≡ count h live - owns h (record b { surface = s })
    gone none = omega arith
    gone (some s) = count-erase h s.handle live

owners-set :
    (h i : ℕ) (v : NvmmBuffer) (vars : List NvmmBuffer)
    → i < length vars
    → owners h (set vars i v) + owns h (var vars i) ≡ owners h vars + owns h v
owners-set h i v [] lt = absurd (omega arith)
owners-set h zero v (b ∷ bs) lt = omega arith
owners-set h (suc i) v (b ∷ bs) lt = omega (arith, owners-set h i v bs (omega arith))

owners-emptied :
    (h i : ℕ) (v : NvmmBuffer) (vars : List NvmmBuffer)
    → owns h v ≡ 0
    → owners h (set vars i v) + owns h (var vars i) ≡ owners h vars
owners-emptied h i v [] e = refl
owners-emptied h zero v (b ∷ bs) e = omega (arith, e)
owners-emptied h (suc i) v (b ∷ bs) e = omega (arith, owners-emptied h i v bs e)

owns-le : (h i : ℕ) (vars : List NvmmBuffer) → owns h (var vars i) ≤ owners h vars
owns-le h i [] = omega arith
owns-le h zero (b ∷ bs) = omega arith
owns-le h (suc i) (b ∷ bs) = omega (arith, owns-le h i bs)

-- Between two operations: every surface exists as often as buffers own it. A surface that is created
-- is new, so this says that each is owned by exactly one buffer.
abbrev pub Balanced : Program → Type 0
Balanced p = (h : ℕ) → count h p.live ≡ owners h p.vars

owners-moved :
    (h i j : ℕ) (a b : NvmmBuffer) (vars : List NvmmBuffer)
    → i ≢ j
    → i < length vars
    → j < length vars
    → owners h (set (set vars i a) j b) + owns h (var vars i) + owns h (var vars j)
      ≡ owners h vars + owns h a + owns h b
owners-moved h i j a b vars ne hi hj = omega (
  arith,
  owners-set h i a vars hi,
  owners-set h j b (set vars i a) (omega (arith, hj, length-set vars i a)),
  ap (owns h) (get_or-set_ne vars i j a nobody ne),
)

-- Where the assignment takes place.
assigned :
    (i j : ℕ) (p : Program)
    → Balanced p
    → i ≢ j
    → i < length p.vars
    → j < length p.vars
    → let (a, b, live) = move_assign (var p.vars i) (var p.vars j) p.live in
      Balanced (record { vars = set (set p.vars i a) j b; live = live })
unfolding move_assign
assigned i j p v ne hi hj h = omega (
  arith,
  v h,
  count-destroy h (var p.vars i) p.live,
  owns-le h i p.vars,
  owners-moved h i j (move_assign (var p.vars i) (var p.vars j) p.live).0
      (move_assign (var p.vars i) (var p.vars j) p.live).1 p.vars ne hi hj,
)

run_op-Balanced : (op : Op) (p : Program) → Balanced p → Balanced (run_op op p)
unfolding run_op move_from
run_op-Balanced (creates s) p v h = omega (arith, v h)
run_op-Balanced (constructs j) p v h =
    omega (arith, v h, owners-emptied h j (move_from (var p.vars j)).1 p.vars refl)
run_op-Balanced (assigns i j) p v h = ground (arith, v h, balanced)
  where
    balanced :
        i ≢ j
        → i < length p.vars
        → j < length p.vars
        → let (a, b, live) = move_assign (var p.vars i) (var p.vars j) p.live in
          count h live ≡ owners h (set (set p.vars i a) j b)
    balanced ne hi hj = assigned i j p v ne hi hj h
run_op-Balanced (destroys i) p v h = omega (
  arith,
  v h,
  count-destroy h (var p.vars i) p.live,
  owns-le h i p.vars,
  owners-emptied h i nobody p.vars refl,
)

-- No program leaks a surface or destroys one twice: after any operations on buffers, each surface
-- exists exactly as often as buffers own it, if it did before. And once every buffer is destroyed, no
-- surface exists.
pub run-Balanced :
    (ops : List Op) (p : Program)
    → Balanced p
    → Balanced (run ops p)
      × ((h : ℕ) → owners h (run ops p).vars ≡ 0 → count h (run ops p).live ≡ 0)
unfolding run
run-Balanced [] p v = (v, λ h e. v h ∙ e)
run-Balanced (op ∷ ops) p v = run-Balanced ops (run_op op p) (run_op-Balanced op p v)
