-- ===== src/Ipc/Sink/Ownership.antt =====
-- What start opens and stop closes (gst/nvmmsink/gstnvmmsink.cpp).
use gst_nvmm_cpp.Common.{
  ℕ, zero, suc, ◌≡◌, refl, ap, subst, ◌∙◌, sym, List, [], ◌∷◌, Option, none, some, Bool, true,
  false, All, arith, ◌&&◌,
}
use gst_nvmm_cpp.Ipc.Protocol.{Segment, segment_size}
use gst_nvmm_cpp.Ipc.Os.{Os, erase, erase-cons_self, open_fd, mmap, create_shm}
use gst_nvmm_cpp.Ipc.Fd.{server_listen}
use gst_nvmm_cpp.Ipc.Sink.State.{Sink, PoolBuffer}
use gst_nvmm_cpp.Ipc.Sink.Lifecycle.{
  StartCalls, destroy_from, destroy_pool, start, start_mapped, socket_name, fresh_header,
  or_default,
}
use gst_nvmm_cpp.Ipc.Sink.Stop.{stop, unlink_named, close_option, munmap_option}

-- Before start: nothing is open, and no slot has a surface.
pub record IsIdle (s : Sink) : Type 0 where
  pub unmapped : s.shm_ptr ≡ none
  pub silent : s.listen_fd ≡ none
  pub alone : s.client_fds ≡ []
  pub empty : All (λ b. b.surface ≡ none) s.pool

-- What an operating system has open for the process.
abbrev pub SameOpen : Os → Os → Type 0
SameOpen a b = (a.open_fds ≡ b.open_fds) × (a.mappings ≡ b.mappings) × (a.surfaces ≡ b.surfaces)

destroy_from-empty :
    (k : ℕ) (pool : List PoolBuffer) (os : Os)
    → All (λ b. b.surface ≡ none) pool
    → (destroy_from k pool os).1 ≡ os
unfolding destroy_from
destroy_from-empty zero pool os a = ground arith
destroy_from-empty (suc k) [] os a = refl
destroy_from-empty (suc k) (b ∷ pool) os a = ground (arith, a.0, destroy_from-empty k pool os a.1)

abbrev without : Option ℕ → List ℕ → List ℕ
without none xs = xs
without (some a) xs = erase a xs

unlink_named-open : (name : List ℕ) (os : Os) → SameOpen (unlink_named name os) os
unlink_named-open [] os = (refl, refl, refl)
unlink_named-open (c ∷ name) os = (refl, refl, refl)

close_option-open :
    (fd : Option ℕ) (os : Os)
    → ((close_option fd os).open_fds ≡ without fd os.open_fds)
      × ((close_option fd os).mappings ≡ os.mappings)
      × ((close_option fd os).surfaces ≡ os.surfaces)
close_option-open none os = (refl, refl, refl)
close_option-open (some fd) os = (refl, refl, refl)

munmap_option-open :
    (p : Option ℕ) (os : Os)
    → ((munmap_option p os).open_fds ≡ os.open_fds)
      × ((munmap_option p os).mappings ≡ without p os.mappings)
      × ((munmap_option p os).surfaces ≡ os.surfaces)
munmap_option-open none os = (refl, refl, refl)
munmap_option-open (some p) os = (refl, refl, refl)

-- What stop leaves open of a sink with no clients and no surfaces.
stop-open :
    (s : Sink) (os : Os)
    → s.client_fds ≡ []
    → All (λ b. b.surface ≡ none) s.pool
    → let os' = (stop s os).1 in
      (os'.open_fds ≡ without s.shm_fd (without s.listen_fd os.open_fds))
      × (os'.mappings ≡ without s.shm_ptr os.mappings)
      × (os'.surfaces ≡ os.surfaces)
unfolding stop destroy_pool
stop-open s os c a =
    rw
      (
        c,
        destroy_from-empty s.pool_size s.pool
            (unlink_named s.socket_path (close_option s.listen_fd os)) a,
      )
      (
        munmap_chain.0 ∙ ap (without s.shm_fd) (m.0 ∙ (u.0 ∙ l.0)),
        munmap_chain.1 ∙ (m.1 ∙ ap (without s.shm_ptr) (u.1 ∙ l.1)),
        munmap_chain.2 ∙ (m.2 ∙ (u.2 ∙ l.2)),
      )
  where
    closed : Os
    closed = unlink_named s.socket_path (close_option s.listen_fd os)

    l :
        ((close_option s.listen_fd os).open_fds ≡ without s.listen_fd os.open_fds)
        × ((close_option s.listen_fd os).mappings ≡ os.mappings)
        × ((close_option s.listen_fd os).surfaces ≡ os.surfaces)
    l = close_option-open s.listen_fd os

    u : SameOpen closed (close_option s.listen_fd os)
    u = unlink_named-open s.socket_path (close_option s.listen_fd os)

    m :
        ((munmap_option s.shm_ptr closed).open_fds ≡ closed.open_fds)
        × ((munmap_option s.shm_ptr closed).mappings ≡ without s.shm_ptr closed.mappings)
        × ((munmap_option s.shm_ptr closed).surfaces ≡ closed.surfaces)
    m = munmap_option-open s.shm_ptr closed

    munmap_chain :
        let o = close_option s.shm_fd (munmap_option s.shm_ptr closed) in
        (o.open_fds ≡ without s.shm_fd (munmap_option s.shm_ptr closed).open_fds)
        × (o.mappings ≡ (munmap_option s.shm_ptr closed).mappings)
        × (o.surfaces ≡ (munmap_option s.shm_ptr closed).surfaces)
    munmap_chain = close_option-open s.shm_fd (munmap_option s.shm_ptr closed)

server_listen-rest :
    (path : List ℕ) (sock : Option ℕ) (bound listening : Bool) (os : Os)
    → let (got, os') = server_listen path sock bound listening os in
      (without got os'.open_fds ≡ os.open_fds)
      × (os'.mappings ≡ os.mappings)
      × (os'.surfaces ≡ os.surfaces)
unfolding server_listen
server_listen-rest path none bound listening os = (refl, refl, refl)
server_listen-rest path (some sock) bound listening os =
    ground (arith, erase-cons_self sock os.open_fds)

-- What start leaves, whatever its calls answer.
abbrev Undone : Sink → Os → Sink → Os → Type 0
Undone s os s' os' =
    (s'.client_fds ≡ s.client_fds)
    × (s'.pool ≡ s.pool)
    × (without s'.shm_fd (without s'.listen_fd os'.open_fds) ≡ os.open_fds)
    × (without s'.shm_ptr os'.mappings ≡ os.mappings)
    × (os'.surfaces ≡ os.surfaces)

-- The end of start, by the answer of the listening call.
abbrev landed : Sink → Segment → Option ℕ → Os → Bool × Sink × Segment × Os
landed named seg got os' = elim got [
  | none ↦ (false, record named { listen_fd = none }, seg, os')
  | some fd ↦ (
    true,
    record named { listen_fd = some fd; running = true; frame_number = 0; write_idx = 0 },
    seg,
    os',
  )
]

landed-Undone :
    (fd p : ℕ) (s : Sink) (seg : Segment) (os os' : Os) (got : Option ℕ)
    → s.shm_fd ≡ some fd
    → s.shm_ptr ≡ some p
    → (without got os'.open_fds ≡ fd ∷ os.open_fds)
      × (os'.mappings ≡ p ∷ os.mappings)
      × (os'.surfaces ≡ os.surfaces)
    → let (done, s', seg', o) =
        landed (record s { socket_path = socket_name s.shm_name }) seg got os' in
      Undone s os s' o
landed-Undone fd p s seg os os' none f m q =
    rw (f, m)
      (
        refl,
        refl,
        ap (erase fd) q.0 ∙ erase-cons_self fd os.open_fds,
        ap (erase p) q.1 ∙ erase-cons_self p os.mappings,
        q.2,
      )
landed-Undone fd p s seg os os' (some sock) f m q =
    rw (f, m)
      (
        refl,
        refl,
        ap (erase fd) q.0 ∙ erase-cons_self fd os.open_fds,
        ap (erase p) q.1 ∙ erase-cons_self p os.mappings,
        q.2,
      )

start_mapped-Undone :
    (calls : StartCalls) (fd p : ℕ) (s : Sink) (seg : Segment) (os : Os)
    → s.shm_fd ≡ some fd
    → s.shm_ptr ≡ some p
    → let (done, s', seg', os') = start_mapped calls s seg (mmap p (open_fd fd os)) in
      Undone s os s' os'
unfolding start_mapped
start_mapped-Undone calls fd p s seg os f m =
    let path = socket_name s.shm_name in
    let o = mmap p (open_fd fd os) in
    let sl = server_listen path calls.socket calls.bound calls.listening o in
    landed-Undone fd p s (record seg { header = fresh_header s.meta_active }) os sl.1 sl.0 f m
      (server_listen-rest path calls.socket calls.bound calls.listening o)

start-Undone :
    (deepstream : Bool) (calls : StartCalls) (s : Sink) (seg : Segment) (os : Os)
    → IsIdle s
    → let (done, s', seg', os') = start deepstream calls s seg os in Undone s os s' os'
unfolding start
start-Undone deepstream calls s seg os i = opened calls.shm_open calls.ftruncate calls.mapped
  where
    opened :
        (fd : Option ℕ) (cut : Bool) (p : Option ℕ)
        → let c : StartCalls = record calls { shm_open = fd; ftruncate = cut; mapped = p } in
          let (done, s', seg', os') = start deepstream c s seg os in Undone s os s' os'
    opened none cut p = (refl, refl, rw (i.silent) refl, rw (i.unmapped) refl, refl)
    opened (some fd) false p =
        (refl, refl, rw (i.silent) (erase-cons_self fd os.open_fds), rw (i.unmapped) refl, refl)
    opened (some fd) true none =
        (refl, refl, rw (i.silent) (erase-cons_self fd os.open_fds), refl, refl)
    opened (some fd) true (some p) =
        start_mapped-Undone (record calls { shm_open = some fd; ftruncate = true; mapped = some p })
          fd p
          (record s {
            shm_name = or_default s.shm_name;
            meta_active = s.export_metadata && deepstream;
            shm_size = segment_size (s.export_metadata && deepstream);
            shm_fd = some fd;
            shm_ptr = some p;
          })
          seg (create_shm (or_default s.shm_name) os) refl refl

-- Whatever the calls of start answer, a stop after it leaves open just what was open before: no
-- descriptor, mapping or surface of the element is left, and none of another is closed.
pub stop-start :
    (deepstream : Bool) (calls : StartCalls) (s : Sink) (seg : Segment) (os : Os)
    → IsIdle s
    → let (done, s', seg', os') = start deepstream calls s seg os in SameOpen (stop s' os').1 os
stop-start deepstream calls s seg os i =
    let u = start-Undone deepstream calls s seg os i in
    let out = start deepstream calls s seg os in
    let e =
      stop-open out.1 out.3 (u.0 ∙ i.alone)
        (subst (All (λ b. b.surface ≡ none)) (sym u.1) i.empty) in
    (e.0 ∙ u.2, e.1 ∙ u.3, e.2 ∙ u.4)
