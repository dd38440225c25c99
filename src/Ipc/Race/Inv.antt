-- ===== src/Ipc/Race/Inv.antt =====
-- What holds between any two accesses of the producer and its readers.
use gst_nvmm_cpp.Common.{
  ℕ, suc, ◌+◌, ap, [], ◌∷◌, refl, replicate, length-replicate, get_or-replicate, ◌-◌, ◌^◌, ◌≤◌, ◌<◌,
  ◌≡◌, ◌∙◌, List, Bool, true, false, length, length-set, All, arith,
}
use gst_nvmm_cpp.Common.Int.{ℤ, pos, negsuc, inc32-pos, dec32-pos}
use gst_nvmm_cpp.Ipc.Protocol.{pool_capacity}
use gst_nvmm_cpp.Ipc.Sink.Render.{ref_count}
use gst_nvmm_cpp.Ipc.AppSrc.State.{no_ref, release_delay}
use gst_nvmm_cpp.Ipc.AppSrc.Ring.{held-replicate}
use gst_nvmm_cpp.Ipc.Race.{
  System, Reader, Step, write, read, Reach, here, next, counters, idle, outside,
}
use gst_nvmm_cpp.Ipc.Race.Count.{
  RingOk, all_held, all_held-set, All-get_elem?, All-set, all_held-le, holds-le-all_held,
}
use gst_nvmm_cpp.Ipc.Race.Moves.{
  Moved, stayed, joined, left, Read-Moved, length-Read, Read-RingOk, Turned, kept, locked, freed,
  writes, Write-Turned, length-Write,
}

-- Either the producer copies into the slot, its counter is -1 and no reader has it; or the counter is
-- the number of the readers' references.
pub data Shared : Bool → ℕ → ℤ → Type 0 where
  taken : Shared true 0 (negsuc 0)
  counted : (h : ℕ) → Shared false h (pos h)

pub record RaceInv (s : System) : Type 0 where
  pub width : length (counters s.seg) ≡ pool_capacity
  pub few : length s.readers ≤ 2 ^ 20
  pub rings : All RingOk s.readers
  pub slots :
      (i : ℕ)
      → i < pool_capacity
      → Shared (writes i s.writer) (all_held i s.readers) (ref_count (counters s.seg) i)

pub pos-inj : {a b : ℕ} → pos a ≡ pos b → a ≡ b
pos-inj e = ap (λ v. elim v [ pos n ↦ n | negsuc n ↦ n ]) e

pub Turned-Shared :
    {b b' : Bool} {v v' : ℤ} {h : ℕ} → Turned b v b' v' → Shared b h v → Shared b' h v'
Turned-Shared kept ok = ok
Turned-Shared (locked e z) taken = absurd cc
Turned-Shared (locked e z) (counted h) = rw (pos-inj z) taken
Turned-Shared (freed e) taken = counted 0
Turned-Shared (freed e) (counted h) = absurd cc

pub Moved-Shared :
    {b : Bool} {v v' : ℤ} {h h' all all' : ℕ}
    → Moved h v h' v'
    → all' + h ≡ all + h'
    → h ≤ all
    → all < 2 ^ 31 - 1
    → Shared b all v
    → Shared b all' v'
Moved-Shared {all = all} {all' = all'} stayed e le lt ok =
    let same : all' ≡ all = omega arith in rw same ok
Moved-Shared (joined n z) e le lt taken = absurd cc
Moved-Shared {all' = all'} (joined n z) e le lt (counted all) =
    let more : all' ≡ all + 1 = omega arith in
    rw (← pos-inj z, inc32-pos all lt, more) (counted (all + 1))
Moved-Shared (left h' q) e le lt taken = absurd (omega arith)
Moved-Shared {all' = all'} (left h' q) e le lt (counted all) =
    let more : all ≡ suc all' = omega arith in rw (more, dec32-pos all') (counted all')

pub Step-RaceInv : {s t : System} → Step s t → RaceInv s → RaceInv t
Step-RaceInv (write w) inv = record {
  width = length-Write w ∙ inv.width;
  few = inv.few;
  rings = inv.rings;
  slots = λ i h. Turned-Shared (Write-Turned i w (omega (arith, inv.width))) (inv.slots i h);
}
Step-RaceInv {s = s} (read k r {c = c} {g = g} {p = p} e m) inv = record {
  width = length-Read m ∙ inv.width;
  few = omega (arith, inv.few, length-set s.readers k (record { src = c; at = p }));
  rings =
      All-set RingOk s.readers k (record { src = c; at = p }) inv.rings
        (Read-RingOk m (All-get_elem? RingOk s.readers k r inv.rings e));
  slots = λ i h.
      Moved-Shared
        (Read-Moved i m (omega (arith, inv.width)) (All-get_elem? RingOk s.readers k r inv.rings e))
        (all_held-set i k r (record { src = c; at = p }) s.readers e)
        (holds-le-all_held i k r s.readers e)
        (omega (arith, inv.few, all_held-le i s.readers inv.rings)) (inv.slots i h);
}

abbrev pub Empty : Reader → Type 0
Empty r =
    (r.at ≡ outside) × (r.src.release_ring ≡ replicate release_delay no_ref) × (r.src.ring_head ≡ 0)

-- As start leaves the segment, and readers that have taken nothing yet.
pub record Fresh (s : System) : Type 0 where
  pub resting : s.writer ≡ idle
  pub zeros : counters s.seg ≡ replicate pool_capacity (pos 0)
  pub few : length s.readers ≤ 2 ^ 20
  pub empty : All Empty s.readers

Fresh-RaceInv : {s : System} → Fresh s → RaceInv s
Fresh-RaceInv {s = s} f = record {
  width = ap length f.zeros ∙ length-replicate pool_capacity (pos 0);
  few = f.few;
  rings = rings s.readers f.empty;
  slots = λ i h.
      rw (f.resting, f.zeros, get_or-replicate pool_capacity i (pos 0), nothing i s.readers f.empty)
        (counted 0);
}
  where
    rings : (rs : List Reader) → All Empty rs → All RingOk rs
    rings [] a = a
    rings (r ∷ rs) a = (
      record {
        full = ap length a.0.1 ∙ length-replicate release_delay no_ref;
        inside = omega (arith, a.0.2);
      },
      rings rs a.1,
    )

    nothing : (i : ℕ) (rs : List Reader) → All Empty rs → all_held i rs ≡ 0
    nothing i [] a = refl
    nothing i (r ∷ rs) a = rw (a.0.0, a.0.1, held-replicate i release_delay, nothing i rs a.1) refl

-- In any interleaving of the producer's and the readers' accesses, a slot's counter is the number of
-- references that the readers hold on it, or -1 while the producer copies into it and no reader holds
-- one.
pub Reach-RaceInv : {s t : System} → Fresh s → Reach s t → RaceInv t
Reach-RaceInv f here = Fresh-RaceInv f
Reach-RaceInv f (next r m) = Step-RaceInv m (Reach-RaceInv f r)
