-- ===== src/Ipc/AppSrc/Lifecycle.antt =====
-- gst/nvmmappsrc/gstnvmmappsrc.cpp: start and stop.
use gst_nvmm_cpp.Common.{
  ℕ, zero, suc, ◌+◌, List, [], ◌∷◌, Option, none, some, Bool, true, false, set, ltb, ◌==◌,
  if◌then◌else◌, ◌&&◌, ◌||◌, not,
}
use gst_nvmm_cpp.Common.Int.{ℤ, dec32}
use gst_nvmm_cpp.Ipc.Protocol.{Segment, ShmHeader, pool_capacity, shm_magic, shm_version}
use gst_nvmm_cpp.Ipc.Os.{Os, open_fd, close, mmap, create_surface, destroy_surface}
use gst_nvmm_cpp.Ipc.Fd.{Received, recv_fds, client_connect}
use gst_nvmm_cpp.Ipc.Sink.Lifecycle.{or_default}
use gst_nvmm_cpp.Ipc.Sink.Stop.{close_option, munmap_option, all_sent}
use gst_nvmm_cpp.Ipc.Sink.Render.{ref_count}
use gst_nvmm_cpp.Ipc.AppSrc.State.{AppSrc, RefSlot, no_ref}

-- What the system calls of `start` answer. `others k` is what other processes do to the segment in
-- the k-th sleep. `pool_size` is what the socket brings first (`none` for a short read);
-- `import_surface i fd` is what NvBufSurfaceImport gives for buffer `i`.
pub record StartCalls : Type 0 where
  pub shm_open : Option ℕ
  pub st_size : Option ℕ
  pub mapped : Option ℕ
  pub others : ℕ → Segment → Segment
  pub socket : Option ℕ
  pub connected : Bool
  pub pool_size : Option ℕ
  pub map_params : ℕ → Bool
  pub fds : Received
  pub import_surface : ℕ → ℕ → Option ℕ

-- The producer has written its magic number and the path of its socket.
abbrev pub is_announced : ShmHeader → Bool
is_announced h = h.magic == shm_magic && elim h.socket_path [ [] ↦ false | c ∷ p ↦ true ]

-- The wait for the producer: `k` sleeps are left, `i` were made.
unfoldable pub wait_producer : (ℕ → Segment → Segment) → ℕ → ℕ → Segment → Bool × Segment
wait_producer others zero i seg = (is_announced seg.header, seg)
wait_producer others (suc k) i seg =
    let later = wait_producer others k (i + 1) (others i seg) in
    if is_announced seg.header then (true, seg) else later

-- The import of `fds`, the first of which is for buffer `i`. A failure leaves what was imported.
unfoldable pub import_from :
    (ℕ → ℕ → Option ℕ) → ℕ → List ℕ → List (Option ℕ) → Os → Bool × List (Option ℕ) × Os
import_from import_surface i [] surfaces os = (true, surfaces, os)
import_from import_surface i (fd ∷ fds) surfaces os = elim (import_surface i fd) [
  | none ↦ (false, surfaces, os)
  | some s ↦ import_from import_surface (i + 1) fds (set surfaces i (some s)) (create_surface s os)
]

-- `start` from the descriptors on.
unfoldable pub start_import : StartCalls → List ℕ → AppSrc → Os → Bool × AppSrc × Os
unfolding import_from
start_import calls fds s os =
    let (done, surfaces, os') = import_from calls.import_surface 0 fds s.imported_surfaces os in
    if done
    then (true, record s { imported_surfaces = surfaces; last_frame_number = 0; caps = none }, os')
    else (false, record s { imported_surfaces = surfaces }, os')

-- A size that the element accepts.
abbrev pub usable : Option ℕ → Option ℕ
usable none = none
usable (some ps) = if ps == 0 || ltb pool_capacity ps then none else some ps

-- `start` from the connected socket on.
unfoldable pub start_socket : StartCalls → ℕ → AppSrc → Os → Bool × AppSrc × Os
unfolding start_import all_sent recv_fds
start_socket calls sock s os =
    let refuse : AppSrc → Os → Bool × AppSrc × Os =
      λ t o. (false, record t { socket_fd = none }, close sock o) in
    elim (usable calls.pool_size) [
      | none ↦ refuse s os
      | some ps ↦
          let sized : AppSrc = record s { pool_size = ps } in
          if all_sent calls.map_params ps 0
          then (let (got, os') = recv_fds calls.fds ps os in
              elim got [ none ↦ refuse sized os' | some fds ↦ start_import calls fds sized os' ])
          else refuse sized os
    ]

-- `start` once the wait for the producer is over, with its answer and the segment as it found it.
unfoldable pub start_announced :
    StartCalls → AppSrc → Os → Bool × Segment → Bool × AppSrc × Segment × Os
unfolding start_socket client_connect
start_announced calls s os (announced, seg) =
    if announced && seg.header.version == shm_version
    then (let s' : AppSrc = record s {
      meta_available = s.import_metadata && not (seg.header.meta_enabled == 0);
    } in
        let (sock, os') = client_connect seg.header.socket_path calls.socket calls.connected os in
        elim sock [
          | none ↦ (false, record s' { socket_fd = none }, seg, os')
          | some fd ↦
              let (done, t, os'') = start_socket calls fd (record s' { socket_fd = some fd }) os' in
              (done, t, seg, os'')
        ])
    else (false, s, seg, os)

-- `start` from the mapping on.
unfoldable pub start_mapped : StartCalls → AppSrc → Segment → Os → Bool × AppSrc × Segment × Os
unfolding start_announced wait_producer
start_mapped calls s seg os = start_announced calls s os (wait_producer calls.others 5000 0 seg)

-- gst_nvmm_app_src_start
unfoldable pub start : StartCalls → AppSrc → Segment → Os → Bool × AppSrc × Segment × Os
start calls s seg os =
    let s' : AppSrc = record s { shm_name = or_default s.shm_name } in
    elim calls.shm_open [
      | none ↦ (false, record s' { shm_fd = none }, seg, os)
      | some fd ↦ elim calls.st_size [
        | none ↦ (false, record s' { shm_fd = none }, seg, close fd (open_fd fd os))
        | some size ↦
            if size == 0
            then (false, record s' { shm_fd = none }, seg, close fd (open_fd fd os))
            else elim calls.mapped [
              | none ↦ (
                false,
                record s' { shm_fd = none; shm_ptr = none; shm_size = size },
                seg,
                close fd (open_fd fd os),
              )
              | some p ↦
                  start_mapped calls
                    (record s' { shm_fd = some fd; shm_ptr = some p; shm_size = size }) seg
                    (mmap p (open_fd fd os))
            ]
      ]
    ]

-- __sync_fetch_and_sub(ptr, 1) where the slot holds a reference.
abbrev pub drop_ref : RefSlot → List ℤ → List ℤ
drop_ref r refs =
    if r.active
    then elim r.ptr [ none ↦ refs | some i ↦ set refs i (dec32 (ref_count refs i)) ]
    else refs

abbrev pub cleared : RefSlot → RefSlot
cleared r = if r.active then elim r.ptr [ none ↦ r | some i ↦ no_ref ] else r

-- The first loop of `stop`: every reference of the ring is dropped.
unfoldable pub release_all : List RefSlot → List ℤ → List RefSlot × List ℤ
release_all [] refs = ([], refs)
release_all (r ∷ ring) refs =
    let (ring', refs') = release_all ring (drop_ref r refs) in (cleared r ∷ ring', refs')

unfoldable pub destroy_imported : List (Option ℕ) → Os → List (Option ℕ) × Os
destroy_imported [] os = ([], os)
destroy_imported (none ∷ l) os = let (l', os') = destroy_imported l os in (none ∷ l', os')
destroy_imported (some s ∷ l) os =
    let (l', os') = destroy_imported l (destroy_surface s os) in (none ∷ l', os')

-- gst_nvmm_app_src_stop
unfoldable pub stop : AppSrc → Segment → Os → AppSrc × Segment × Os
stop s seg os =
    let (ring, refs) = release_all s.release_ring seg.header.ref_counts in
    let (surfaces, os') = destroy_imported s.imported_surfaces os in
    (
      record s {
        release_ring = ring;
        imported_surfaces = surfaces;
        socket_fd = none;
        shm_ptr = none;
        shm_fd = none;
      },
      record seg { header = record (seg.header) { ref_counts = refs } },
      close_option s.shm_fd (munmap_option s.shm_ptr (close_option s.socket_fd os')),
    )
