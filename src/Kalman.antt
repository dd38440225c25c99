-- ===== src/Kalman.antt =====
-- gst/common/kalman_box.cpp: the constant-velocity Kalman filter of a box. Binary64 numbers are bit patterns and
-- their arithmetic is a parameter. A matrix is the list of its rows.
use gst_nvmm_cpp.Common.{
  ℕ, zero, suc, ◌+◌, List, [], ◌∷◌, ◌++◌, Bool, true, false, ◌||◌, ◌≡◌, refl, get_or, ltb, ◌==◌,
  map, if◌then◌else◌,
}
use gst_nvmm_cpp.Common.Float.{F32}
use gst_nvmm_cpp.Gate.Element.{F64}

pub record Doubles : Type 0 where
  pub add : F64 → F64 → F64
  pub sub : F64 → F64 → F64
  pub mul : F64 → F64 → F64
  pub div : F64 → F64 → F64
  pub sqrt : F64 → F64
  pub hypot : F64 → F64 → F64
  pub lt : F64 → F64 → Bool
  pub is_zero : F64 → Bool
  pub of_nat : ℕ → F64
  pub widen : F32 → F64
  pub narrow : F64 → F32

-- 2, 10, 1 / 20 and 1 / 160
abbrev pub two : F64
two = 0x4000000000000000

abbrev pub ten : F64
ten = 0x4024000000000000

abbrev pub std_w_pos : F64
std_w_pos = 0x3FA999999999999A

abbrev pub std_w_vel : F64
std_w_vel = 0x3F7999999999999A

abbrev pub Vec : Type 0
Vec = List F64

abbrev pub Mat : Type 0
Mat = List Vec

pub record KalmanBox : Type 0 where
  pub mean : Vec
  pub cov : Mat
  pub initiated : Bool

pub record Box : Type 0 where
  pub cx : F64
  pub cy : F64
  pub w : F64
  pub h : F64

-- The numbers at `i`, and at the row `i` and the column `j`.
abbrev pub at : Vec → ℕ → F64
at v i = get_or v i 0

abbrev pub entry : Mat → ℕ → ℕ → F64
entry m i j = get_or (get_or m i []) j 0

-- f i, f (i + 1), ..., `n` values
abbrev pub tabulate_from {ℓ} : {A : Type ℓ} → ℕ → ℕ → (ℕ → A) → List A
tabulate_from i zero f = []
tabulate_from i (suc n) f = f i ∷ tabulate_from (i + 1) n f

abbrev pub vector : ℕ → (ℕ → F64) → Vec
vector n f = tabulate_from 0 n f

abbrev pub matrix : ℕ → ℕ → (ℕ → ℕ → F64) → Mat
matrix n m f = tabulate_from 0 n (λ i. vector m (f i))

-- A new KalmanBox.
abbrev pub new_kalman : KalmanBox
new_kalman = record { mean = vector 8 (λ i. 0); cov = matrix 8 8 (λ i j. 0); initiated = false }

abbrev pub box : KalmanBox → Box
box k = record { cx = at k.mean 0; cy = at k.mean 1; w = at k.mean 2; h = at k.mean 3 }

abbrev pub coords : Box → Vec
coords b = b.cx ∷ b.cy ∷ b.w ∷ b.h ∷ []

module _ (D : Doubles) where
  -- s -= a[k] * b[k] and s += a[k] * b[k], for each k of both
  abbrev pub sub_products : F64 → Vec → Vec → F64
  sub_products s [] b = s
  sub_products s (x ∷ a) [] = s
  sub_products s (x ∷ a) (y ∷ b) = sub_products (D.sub s (D.mul x y)) a b

  abbrev pub add_products : F64 → Vec → Vec → F64
  add_products s [] b = s
  add_products s (x ∷ a) [] = s
  add_products s (x ∷ a) (y ∷ b) = add_products (D.add s (D.mul x y)) a b

  abbrev pub quotient : F64 → F64 → F64
  quotient s d = if D.is_zero d then 0 else D.div s d

  abbrev pub last_of : Vec → F64
  last_of [] = 0
  last_of (x ∷ []) = x
  last_of (x ∷ y ∷ v) = last_of (y ∷ v)

  -- A row of L up to its diagonal: its numbers `a` of A from the column at hand on, the rows of L from there
  -- on, which end at their diagonals, and the numbers that it has already.
  unfoldable pub chol_row : Vec → Mat → Vec → Vec
  chol_row [] ls row = row
  chol_row (a ∷ as') [] row =
      let s = sub_products a row row in row ++ (D.sqrt (if D.lt 0 s then s else 0) ∷ [])
  chol_row (a ∷ as') (l ∷ ls) row =
      chol_row as' ls (row ++ (quotient (sub_products a row l) (last_of l) ∷ []))

  unfoldable pub chol_rows : Mat → Mat → Mat
  chol_rows [] ls = ls
  chol_rows (a ∷ as') ls = chol_rows as' (ls ++ (chol_row a ls [] ∷ []))

  -- The numbers behind the diagonals are 0 in the code, and are never read.
  unfoldable pub chol4 : Mat → Mat
  chol4 a = chol_rows a []

  unfoldable pub forward : Mat → Vec → Vec → Vec
  forward [] b y = y
  forward (l ∷ ls) [] y = y
  forward (l ∷ ls) (s ∷ b) y = forward ls b (y ++ (quotient (sub_products s l y) (last_of l) ∷ []))

  -- The numbers of x from `i` on, for the rows of L from there on.
  unfoldable pub backward : ℕ → Mat → Vec → Vec
  backward i [] y = []
  backward i (l ∷ ls) [] = []
  backward i (l ∷ ls) (s ∷ y) =
      let x = backward (i + 1) ls y in
      quotient (sub_products s (map (λ (r : Vec). at r i) ls) x) (last_of l) ∷ x

  unfoldable pub chol_solve_vec : Mat → Vec → Vec
  chol_solve_vec l b = backward 0 l (forward l b [])

  unfoldable pub initiate : Box → KalmanBox
  initiate b =
      let sizes : Vec = b.w ∷ b.h ∷ b.w ∷ b.h ∷ b.w ∷ b.h ∷ b.w ∷ b.h ∷ [] in
      let std = λ (i : ℕ).
        D.mul (if ltb i 4 then D.mul two std_w_pos else D.mul ten std_w_vel) (at sizes i) in
      record {
        mean = coords b ++ (0 ∷ 0 ∷ 0 ∷ 0 ∷ []);
        cov = matrix 8 8 (λ i j. if i == j then D.mul (std i) (std i) else 0);
        initiated = true;
      }

  -- What the process's noise and the measurement's multiply: the box's width or height.
  abbrev pub extent : Vec → ℕ → F64
  extent mean i = if i == 0 || (i == 2 || (i == 4 || i == 6)) then at mean 2 else at mean 3

  unfoldable pub predict : F64 → KalmanBox → KalmanBox
  predict dt k =
      let q = λ (i : ℕ). D.mul (if ltb i 4 then std_w_pos else std_w_vel) (extent k.mean i) in
      let fc =
        matrix 8 8 λ i j.
          D.add (entry k.cov i j) (if ltb i 4 then D.mul dt (entry k.cov (4 + i) j) else 0) in
      let nc =
        matrix 8 8
          λ i j. D.add (entry fc i j) (if ltb j 4 then D.mul dt (entry fc i (4 + j)) else 0) in
      record k {
        mean = vector 8 λ i.
            if ltb i 4 then D.add (at k.mean i) (D.mul dt (at k.mean (4 + i))) else at k.mean i;
        cov =
            matrix 8 8
              λ i j. if i == j then D.add (entry nc i j) (D.mul (q i) (q i)) else entry nc i j;
      }

  -- The mean and the covariance of a measurement.
  unfoldable pub project : KalmanBox → Vec × Mat
  project k =
      let r = λ (i : ℕ). D.mul std_w_pos (extent k.mean i) in
      (
        vector 4 (at k.mean),
        matrix 4 4
            λ i j. if i == j then D.add (entry k.cov i j) (D.mul (r i) (r i)) else entry k.cov i j,
      )

  unfoldable pub update : Box → KalmanBox → KalmanBox
  update b k =
      let (pmean, pcov) = project k in
      let l = chol4 pcov in
      let gain : Mat = tabulate_from 0 8 (λ r. chol_solve_vec l (vector 4 (entry k.cov r))) in
      let innov = vector 4 (λ i. D.sub (at (coords b) i) (at pmean i)) in
      let m = matrix 4 8 (λ a c. add_products 0 (get_or pcov a []) (get_or gain c [])) in
      record k {
        mean = vector 8 (λ r. D.add (at k.mean r) (add_products 0 (get_or gain r []) innov));
        cov = matrix 8 8 λ i j.
            D.sub (entry k.cov i j)
              (add_products 0 (get_or gain i []) (vector 4 (λ a. entry m a j)));
      }

  unfoldable pub gating_distance : Box → KalmanBox → F64
  gating_distance b k =
      let (pmean, pcov) = project k in
      let z = forward (chol4 pcov) (vector 4 (λ i. D.sub (at (coords b) i) (at pmean i))) [] in
      add_products 0 z z

  unfoldable pub shift : F64 → F64 → KalmanBox → KalmanBox
  shift dx dy k = record k {
    mean = vector 8 λ i.
        if i == 0
        then D.add (at k.mean 0) dx
        else if i == 1
        then D.add (at k.mean 1) dy
        else at k.mean i;
  }

  pub initiated-predict : (dt : F64) (k : KalmanBox) → (predict dt k).initiated ≡ k.initiated
  unfolding predict
  initiated-predict dt k = refl

  pub initiated-update : (b : Box) (k : KalmanBox) → (update b k).initiated ≡ k.initiated
  unfolding update
  initiated-update b k = refl

  pub initiated-initiate : (b : Box) → (initiate b).initiated ≡ true
  unfolding initiate
  initiated-initiate b = refl
