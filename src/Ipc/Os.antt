-- ===== src/Ipc/Os.antt =====
-- What the link's elements own in the operating system. What a system call answers is an argument
-- of the code that makes it; what it opens or closes is recorded here.
use gst_nvmm_cpp.Common.{
  ℕ, ◌≡◌, refl, ap, ◌∙◌, List, [], ◌∷◌, ◌++◌, Bool, true, false, ◌&&◌, ◌==◌, if◌then◌else◌, ==_refl,
  inl, inr, Bool-cases,
}

abbrev pub FileName : Type 0
FileName = List ℕ

pub record Os : Type 0 where
  pub open_fds : List ℕ
  pub mappings : List ℕ
  pub surfaces : List ℕ
  pub socket_files : List FileName
  pub shm_files : List FileName

abbrev pub erase : ℕ → List ℕ → List ℕ
erase a [] = []
erase a (x ∷ xs) = if x == a then xs else x ∷ erase a xs

abbrev pub same_name : FileName → FileName → Bool
same_name [] [] = true
same_name [] (y ∷ ys) = false
same_name (x ∷ xs) [] = false
same_name (x ∷ xs) (y ∷ ys) = x == y && same_name xs ys

abbrev pub remove_name : FileName → List FileName → List FileName
remove_name p [] = []
remove_name p (q ∷ l) = if same_name q p then remove_name p l else q ∷ remove_name p l

abbrev pub open_fd : ℕ → Os → Os
open_fd fd os = record os { open_fds = fd ∷ os.open_fds }

abbrev pub close : ℕ → Os → Os
close fd os = record os { open_fds = erase fd os.open_fds }

abbrev pub close_all : List ℕ → Os → Os
close_all [] os = os
close_all (fd ∷ fds) os = close_all fds (close fd os)

abbrev pub mmap : ℕ → Os → Os
mmap p os = record os { mappings = p ∷ os.mappings }

abbrev pub munmap : ℕ → Os → Os
munmap p os = record os { mappings = erase p os.mappings }

abbrev pub create_surface : ℕ → Os → Os
create_surface s os = record os { surfaces = s ∷ os.surfaces }

abbrev pub destroy_surface : ℕ → Os → Os
destroy_surface s os = record os { surfaces = erase s os.surfaces }

abbrev pub bind_file : FileName → Os → Os
bind_file p os = record os { socket_files = p ∷ os.socket_files }

abbrev pub unlink : FileName → Os → Os
unlink p os = record os { socket_files = remove_name p os.socket_files }

abbrev pub create_shm : FileName → Os → Os
create_shm p os = record os { shm_files = p ∷ remove_name p os.shm_files }

abbrev pub shm_unlink : FileName → Os → Os
shm_unlink p os = record os { shm_files = remove_name p os.shm_files }

pub erase-cons_self : (a : ℕ) (xs : List ℕ) → erase a (a ∷ xs) ≡ xs
erase-cons_self a xs = rw (==_refl a)

-- Descriptors installed on top of others are closed by closing them in turn.
pub close_all-append :
    (fds before : List ℕ) (os : Os)
    → os.open_fds ≡ fds ++ before
    → close_all fds os ≡ record os { open_fds = before }
close_all-append [] before os h = λ i. record os { open_fds = h i }
close_all-append (fd ∷ fds) before os h =
    close_all-append fds before (close fd os) (ap (erase fd) h ∙ erase-cons_self fd (fds ++ before))

pub same_name_refl : (p : FileName) → same_name p p ≡ true
same_name_refl [] = refl
same_name_refl (x ∷ xs) = rw (==_refl x) (same_name_refl xs)

pub remove_name_twice :
    (p : FileName) (l : List FileName) → remove_name p (remove_name p l) ≡ remove_name p l
remove_name_twice p [] = refl
remove_name_twice p (q ∷ l) = elim (Bool-cases (same_name q p)) [
  | inl e ↦ rw e (remove_name_twice p l)
  | inr e ↦ rw (e, e) (ap (◌∷◌ q) (remove_name_twice p l))
]

pub remove_name-cons : (p : FileName) (l : List FileName) → remove_name p (p ∷ l) ≡ remove_name p l
remove_name-cons p l = rw (same_name_refl p)
