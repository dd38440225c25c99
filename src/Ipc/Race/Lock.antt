-- ===== src/Ipc/Race/Lock.antt =====
-- A slot as a lock for one writer or many readers, and what the accesses of gstnvmmsink.cpp and
-- gstnvmmappsrc.cpp are for it.
use gst_nvmm_cpp.Common.{
  ℕ, suc, ◌+◌, ◌<◌, ◌≡◌, some, Bool, true, false, get_elem?, set, refl, ap, ◌∙◌, ==_refl, arith,
}
use gst_nvmm_cpp.Common.Int.{ℤ}
use gst_nvmm_cpp.Ipc.Protocol.{pool_capacity}
use gst_nvmm_cpp.Ipc.Sink.Render.{Frame}
use gst_nvmm_cpp.Ipc.Race.{System, Reader, Step, write, read, Reach, copying}
use gst_nvmm_cpp.Ipc.Race.Count.{
  all_held, all_held-set, All-get_elem?, RingOk, holds, holds-le-all_held,
}
use gst_nvmm_cpp.Ipc.Race.Moves.{
  Moved, stayed, joined, left, Read-Moved, Turned, kept, locked, freed, writes, Write-Turned,
}
use gst_nvmm_cpp.Ipc.Race.Inv.{RaceInv, Fresh, Shared, pos-inj, taken, counted, Reach-RaceInv}

pub data Slot : Type 0 where
  writing : Slot
  read_by : ℕ → Slot

-- The lock's rules: it is taken for writing while nobody reads, and for reading while nobody writes.
pub data SlotStep : Slot → Slot → Type 0 where
  unmoved : (a : Slot) → SlotStep a a
  begin_write : SlotStep (read_by 0) writing
  end_write : SlotStep writing (read_by 0)
  enter_read : (n : ℕ) → SlotStep (read_by n) (read_by (n + 1))
  leave_read : (n : ℕ) → SlotStep (read_by (n + 1)) (read_by n)

abbrev pub slot_of : Bool → ℕ → Slot
slot_of true n = writing
slot_of false n = read_by n

-- Slot `i` of the system: who is in it, whatever the counter says.
abbrev pub slot : ℕ → System → Slot
slot i s = slot_of (writes i s.writer) (all_held i s.readers)

Turned-SlotStep :
    {b b' : Bool} {v v' : ℤ} {h : ℕ}
    → Turned b v b' v'
    → Shared b h v
    → SlotStep (slot_of b h) (slot_of b' h)
Turned-SlotStep kept ok = unmoved _
Turned-SlotStep (locked e z) taken = absurd cc
Turned-SlotStep (locked e z) (counted h) = rw (pos-inj z) begin_write
Turned-SlotStep (freed e) taken = end_write
Turned-SlotStep (freed e) (counted h) = absurd cc

Moved-SlotStep :
    (all' : ℕ) {b : Bool} {v v' : ℤ} {h h' all : ℕ}
    → Moved h v h' v'
    → all' + h ≡ all + h'
    → h < suc all
    → Shared b all v
    → SlotStep (slot_of b all) (slot_of b all')
Moved-SlotStep all' {all = all} stayed e le ok =
    let same : all' ≡ all = omega arith in rw same (unmoved _)
Moved-SlotStep all' (joined n z) e le taken = absurd cc
Moved-SlotStep all' (joined n z) e le (counted all) =
    let more : all' ≡ all + 1 = omega arith in rw more (enter_read all)
Moved-SlotStep all' (left h' q) e le taken = absurd (omega arith)
Moved-SlotStep all' (left h' q) e le (counted all) =
    let more : all ≡ all' + 1 = omega arith in rw more (leave_read all')

slot_rules :
    (i : ℕ) {s t : System}
    → i < pool_capacity
    → RaceInv s
    → Step s t
    → SlotStep (slot i s) (slot i t)
slot_rules i h inv (write w) =
    Turned-SlotStep (Write-Turned i w (omega (arith, inv.width))) (inv.slots i h)
slot_rules i {s = s} h inv (read k r {c = c} {p = p} e m) =
    Moved-SlotStep (all_held i (set s.readers k (record { src = c; at = p })))
      (Read-Moved i m (omega (arith, inv.width)) (All-get_elem? RingOk s.readers k r inv.rings e))
      (all_held-set i k r (record { src = c; at = p }) s.readers e)
      (omega (arith, holds-le-all_held i k r s.readers e)) (inv.slots i h)

-- Seen slot by slot, every access of render, create and stop, in any interleaving of a producer and its
-- readers, does nothing or a step that the rules of a lock for one writer or many readers allow.
pub Step-SlotStep :
    (i : ℕ) {s t u : System}
    → i < pool_capacity
    → Fresh s
    → Reach s t
    → Step t u
    → SlotStep (slot i t) (slot i u)
Step-SlotStep i h f r m = slot_rules i h (Reach-RaceInv f r) m

alone_in : {b : Bool} {h : ℕ} {v : ℤ} → Shared b h v → b ≡ true → h ≡ 0
alone_in taken e = refl
alone_in (counted h) e = absurd cc

-- While render copies a frame into a slot, no reader has a reference on that slot, in any interleaving
-- of the accesses.
pub copying_alone :
    (f : Frame) (i k : ℕ) (r : Reader) {s t : System}
    → i < pool_capacity
    → Fresh s
    → Reach s t
    → t.writer ≡ copying f i
    → get_elem? t.readers k ≡ some r
    → holds i r ≡ 0
copying_alone f i k r {t = t} h fresh reach w e = omega (
  arith,
  holds-le-all_held i k r t.readers e,
  alone_in ((Reach-RaceInv fresh reach).slots i h) (ap (writes i) w ∙ ==_refl i),
)
