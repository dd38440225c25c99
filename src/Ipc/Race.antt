-- ===== src/Ipc/Race.antt =====
-- gst/nvmmsink/gstnvmmsink.cpp (render) and gst/nvmmappsrc/gstnvmmappsrc.cpp (create, stop) access by
-- access: a producer and any number of readers take turns after each access to the shared counters.
pub mod Count
pub mod Moves
pub mod Inv
pub mod Lock
pub mod Metadata
use gst_nvmm_cpp.Common.{
  ℕ, zero, ◌+◌, ◌%◌, ◌≤◌, ◌<◌, ◌≡◌, ◌≢◌, List, Option, none, some, Bool, true, false, set, get_or,
  get_elem?,
}
use gst_nvmm_cpp.Common.Int.{ℤ, pos, negsuc, inc32}
use gst_nvmm_cpp.Ipc.Protocol.{Segment}
use gst_nvmm_cpp.Ipc.Sink.State.{Sink}
use gst_nvmm_cpp.Ipc.Sink.Render.{Frame, ref_count, try_lock, set_refs, write_meta, publish}
use gst_nvmm_cpp.Ipc.AppSrc.State.{AppSrc, no_ref, release_delay}
use gst_nvmm_cpp.Ipc.AppSrc.Lifecycle.{drop_ref, cleared}
use gst_nvmm_cpp.Ipc.AppSrc.Create.{rotate}

-- Where `render` stands: `searching frame i` before round `i` of its search, `copying frame t` with slot `t`
-- locked, `unlocked frame t` and `described frame t` after the lock's release and after the metadata.
pub data WriterAt : Type 0 where
  idle : WriterAt
  searching : Frame → ℕ → WriterAt
  copying unlocked described : Frame → ℕ → WriterAt

-- Where a reader stands: `chosen idx a` after `a` failed attempts on the slots it read from `write_idx`,
-- `loaded idx a v` with the counter's value, `claimed idx` after its swap, and `stopping k` before the
-- k-th entry of the ring is given back.
pub data ReaderAt : Type 0 where
  outside : ReaderAt
  chosen : ℕ → ℕ → ReaderAt
  loaded : ℕ → ℕ → ℤ → ReaderAt
  claimed : ℕ → ReaderAt
  stopping : ℕ → ReaderAt

pub record Reader : Type 0 where
  pub src : AppSrc
  pub at : ReaderAt

pub record System : Type 0 where
  pub sink : Sink
  pub writer : WriterAt
  pub seg : Segment
  pub readers : List Reader

abbrev pub counters : Segment → List ℤ
counters seg = seg.header.ref_counts

-- One access of `render`.
pub data Write (s : Sink) (seg : Segment) : WriterAt → Sink → Segment → WriterAt → Type 0 where
  enter :
      (f : Frame) (pointer : ℕ)
      → s.shm_ptr ≡ some pointer
      → s.pool_allocated ≡ true
      → f.nvmm ≡ true
      → Write s seg idle s seg (searching f 0)
  lock :
      (f : Frame) (i : ℕ) (refs : List ℤ)
      → i < s.pool_size
      → try_lock (counters seg) ((s.write_idx + 1 + i) % s.pool_size) ≡ (true, refs)
      → Write s seg
          (searching f i)
          s
          (set_refs refs seg)
          (copying f ((s.write_idx + 1 + i) % s.pool_size))
  busy :
      (f : Frame) (i : ℕ) (refs : List ℤ)
      → i < s.pool_size
      → try_lock (counters seg) ((s.write_idx + 1 + i) % s.pool_size) ≡ (false, refs)
      → Write s seg (searching f i) s (set_refs refs seg) (searching f (i + 1))
  all_busy : (f : Frame) (i : ℕ) → s.pool_size ≤ i → Write s seg (searching f i) s seg idle
  copy_failed :
      (f : Frame) (t : ℕ)
      → f.transformed ≡ false
      → Write s seg (copying f t) s (set_refs (set (counters seg) t (pos 0)) seg) idle
  copied :
      (f : Frame) (t : ℕ)
      → f.transformed ≡ true
      → Write s seg (copying f t) s (set_refs (set (counters seg) t (pos 0)) seg) (unlocked f t)
  describe :
      (f : Frame) (t : ℕ) (deepstream : Bool)
      → Write s seg (unlocked f t) s (write_meta deepstream s t f seg) (described f t)
  announce :
      (f : Frame) (t : ℕ)
      → Write s seg (described f t) (publish s t f seg).0 (publish s t f seg).1 idle

-- One access of `create` once a frame is there, or of the first loop of `stop`.
pub data Read (r : AppSrc) (seg : Segment) : ReaderAt → AppSrc → Segment → ReaderAt → Type 0 where
  choose :
      seg.header.write_idx < r.pool_size → Read r seg outside r seg (chosen seg.header.write_idx 0)
  load : (idx a : ℕ) → Read r seg (chosen idx a) r seg (loaded idx a (ref_count (counters seg) idx))
  retry :
      (idx a n : ℕ)
      → a < 1000
      → Read r seg (loaded idx a (negsuc n)) r seg (chosen seg.header.write_idx (a + 1))
  give_up : (idx a n : ℕ) → 1000 ≤ a → Read r seg (loaded idx a (negsuc n)) r seg outside
  swap :
      (idx a n : ℕ)
      → ref_count (counters seg) idx ≡ pos n
      → Read r seg
          (loaded idx a (pos n))
          r
          (set_refs (set (counters seg) idx (inc32 (pos n))) seg)
          (claimed idx)
  outrun :
      (idx a n : ℕ)
      → ref_count (counters seg) idx ≢ pos n
      → Read r seg (loaded idx a (pos n)) r seg (chosen idx a)
  keep : (idx : ℕ) → Read r seg (claimed idx) (rotate idx r seg).0 (rotate idx r seg).1 outside
  halt : Read r seg outside r seg (stopping 0)
  give_back :
      (k : ℕ)
      → k < release_delay
      → Read r seg
          (stopping k)
          (record r {
            release_ring = set r.release_ring k (cleared (get_or r.release_ring k no_ref));
          })
          (set_refs (drop_ref (get_or r.release_ring k no_ref) (counters seg)) seg)
          (stopping (k + 1))
  halted : (k : ℕ) → release_delay ≤ k → Read r seg (stopping k) r seg outside

pub data Step (s : System) : System → Type 0 where
  write :
      {k : Sink} {g : Segment} {w : WriterAt}
      → Write s.sink s.seg s.writer k g w
      → Step s (record s { sink = k; seg = g; writer = w })
  read :
      (i : ℕ) (r : Reader) {c : AppSrc} {g : Segment} {p : ReaderAt}
      → get_elem? s.readers i ≡ some r
      → Read r.src s.seg r.at c g p
      → Step s (record s { seg = g; readers = set s.readers i (record { src = c; at = p }) })

pub data Reach (s : System) : System → Type 0 where
  here : Reach s s
  next : {t u : System} → Reach s t → Step t u → Reach s u
