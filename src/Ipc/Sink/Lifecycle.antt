-- ===== src/Ipc/Sink/Lifecycle.antt =====
-- gst/nvmmsink/gstnvmmsink.cpp: the pool of surfaces, set_caps and start, with what each
-- owns in the operating system.
use gst_nvmm_cpp.Common.{
  ℕ, zero, suc, ◌+◌, List, [], ◌∷◌, ◌++◌, Option, none, some, Bool, true, false, ◌&&◌, ◌||◌, set,
  get_or, take, map, replicate, ◌==◌, if◌then◌else◌,
}
use gst_nvmm_cpp.Common.Int.{pos}
use gst_nvmm_cpp.Ipc.Protocol.{
  Segment, ShmHeader, pool_capacity, shm_magic, shm_version, meta_max_objects, segment_size,
}
use gst_nvmm_cpp.Ipc.Os.{
  Os, FileName, open_fd, close, mmap, create_surface, destroy_surface, create_shm,
}
use gst_nvmm_cpp.Ipc.Fd.{server_listen}
use gst_nvmm_cpp.Ipc.Sink.State.{Sink, PoolBuffer, Created, VideoInfo, no_buffer, default_name}

-- GstVideoFormat's values of the formats that the pool takes.
abbrev pub format_i420 : ℕ
format_i420 = 2

abbrev pub format_rgba : ℕ
format_rgba = 11

abbrev pub format_bgra : ℕ
format_bgra = 12

abbrev pub format_nv12 : ℕ
format_nv12 = 23

unfoldable pub pool_format : ℕ → Bool
pool_format f = f == format_nv12 || f == format_rgba || f == format_bgra || f == format_i420

-- The loop of allocate_pool over `k` more buffers from index `i` on; `created` is what
-- NvBufSurfaceCreate and NvBufSurfaceGetMapParams answer.
unfoldable pub allocate_from :
    (ℕ → Option Created) → ℕ → ℕ → List PoolBuffer → Os → Bool × List PoolBuffer × Os
allocate_from created zero i pool os = (true, pool, os)
allocate_from created (suc k) i pool os = elim (created i) [
  | none ↦ (false, pool, os)
  | some c ↦
      let b : PoolBuffer = record {
        surface = some c;
        fd = some c.buffer_desc;
        map_params = c.map_params;
      } in
      elim c.map_params [
        | none ↦ (false, set pool i b, create_surface c.handle os)
        | some m ↦ allocate_from created k (i + 1) (set pool i b) (create_surface c.handle os)
      ]
]

unfoldable pub allocate_pool : (ℕ → Option Created) → Sink → Os → Bool × Sink × Os
unfolding pool_format
allocate_pool created s os =
    if pool_format s.video_info.format
    then (let (done, pool, os') = allocate_from created s.pool_size 0 s.pool os in
        (done, record s { pool = pool; pool_allocated = done || s.pool_allocated }, os'))
    else (false, s, os)

-- destroy_pool over the first `k` buffers.
unfoldable pub destroy_from : ℕ → List PoolBuffer → Os → List PoolBuffer × Os
destroy_from zero pool os = (pool, os)
destroy_from (suc k) [] os = ([], os)
destroy_from (suc k) (b ∷ pool) os = elim b.surface [
  | none ↦ let (rest, os') = destroy_from k pool os in (b ∷ rest, os')
  | some c ↦
      let (rest, os') = destroy_from k pool (destroy_surface c.handle os) in
      (record b { surface = none; fd = none } ∷ rest, os')
]

unfoldable pub destroy_pool : Sink → Os → Sink × Os
destroy_pool s os =
    let (pool, os') = destroy_from s.pool_size s.pool os in
    (record s { pool = pool; pool_allocated = false }, os')

-- The first `n` entries of `new` over those of `old`.
unfoldable pub copy_first : ℕ → List ℕ → List ℕ → List ℕ
copy_first zero new old = old
copy_first (suc n) [] old = old
copy_first (suc n) (x ∷ new) [] = []
copy_first (suc n) (x ∷ new) (y ∷ old) = x ∷ copy_first n new old

abbrev pub pitch_of : PoolBuffer → List ℕ
pitch_of b = elim b.surface [ none ↦ [] | some c ↦ c.pitch ]

abbrev pub offset_of : PoolBuffer → List ℕ
offset_of b = elim b.surface [ none ↦ [] | some c ↦ c.offset ]

-- What set_caps writes into the header once the pool stands. `pitches` has four entries.
unfoldable pub describe : Sink → ShmHeader → ShmHeader
unfolding copy_first
describe s h = record h {
  width = s.video_info.width;
  height = s.video_info.height;
  format = s.video_info.format;
  pool_size = s.pool_size;
  num_planes = s.video_info.n_planes;
  pitches = copy_first s.video_info.n_planes (pitch_of (get_or s.pool 0 no_buffer)) h.pitches;
  offsets = copy_first s.video_info.n_planes (offset_of (get_or s.pool 0 no_buffer)) h.offsets;
  socket_path = take 107 s.socket_path;
}

-- gst_nvmm_sink_set_caps; `parsed` is what gst_video_info_from_caps reads of the caps.
unfoldable pub set_caps :
    Option VideoInfo → (ℕ → Option Created) → Sink → Segment → Os → Bool × Sink × Segment × Os
set_caps none created s seg os = (false, s, seg, os)
set_caps (some info) created s seg os =
    let s' : Sink = record s { video_info = info } in
    if s.pool_allocated
    then (true, s', seg, os)
    else (let (done, p, os') = allocate_pool created s' os in
        if done
        then (true, p, record seg { header = describe p seg.header }, os')
        else (false, p, seg, os'))

-- What the system calls of `start` answer.
pub record StartCalls : Type 0 where
  pub shm_open : Option ℕ
  pub ftruncate : Bool
  pub mapped : Option ℕ
  pub socket : Option ℕ
  pub bound : Bool
  pub listening : Bool

abbrev pub slash_to_underscore : ℕ → ℕ
slash_to_underscore c = if c == b'/' then b'_' else c

-- "/tmp/nvmm" + the flattened name + ".sock"
unfoldable pub socket_name : FileName → FileName
socket_name name =
    (b'/' ∷ b't' ∷ b'm' ∷ b'p' ∷ b'/' ∷ b'n' ∷ b'v' ∷ b'm' ∷ b'm' ∷ [])
    ++ (map slash_to_underscore name ++ (b'.' ∷ b's' ∷ b'o' ∷ b'c' ∷ b'k' ∷ []))

abbrev pub fresh_header : Bool → ShmHeader
fresh_header meta_active = record {
  magic = shm_magic;
  version = shm_version;
  width = 0;
  height = 0;
  format = 0;
  pool_size = 0;
  num_planes = 0;
  pitches = replicate 4 0;
  offsets = replicate 4 0;
  socket_path = [];
  write_idx = 0;
  frame_number = 0;
  timestamp_ns = 0;
  ready = 0;
  ref_counts = replicate pool_capacity (pos 0);
  meta_enabled = if meta_active then 1 else 0;
  meta_objects = meta_max_objects;
}

abbrev pub or_default : FileName → FileName
or_default [] = default_name
or_default (c ∷ name) = c ∷ name

-- The end of gst_nvmm_sink_start, from the mapping on.
unfoldable pub start_mapped : StartCalls → Sink → Segment → Os → Bool × Sink × Segment × Os
unfolding socket_name
start_mapped calls s seg os =
    let seg' : Segment = record seg { header = fresh_header s.meta_active } in
    let named : Sink = record s { socket_path = socket_name s.shm_name } in
    let (sock, os') = server_listen named.socket_path calls.socket calls.bound calls.listening os in
    elim sock [
      | none ↦ (false, record named { listen_fd = none }, seg', os')
      | some fd ↦ (
        true,
        record named { listen_fd = some fd; running = true; frame_number = 0; write_idx = 0 },
        seg',
        os',
      )
    ]

-- gst_nvmm_sink_start. `deepstream` is the build flag NVMM_DEEPSTREAM_META.
unfoldable pub start : Bool → StartCalls → Sink → Segment → Os → Bool × Sink × Segment × Os
start deepstream calls s seg os =
    let active : Bool = s.export_metadata && deepstream in
    let s' : Sink = record s {
      shm_name = or_default s.shm_name;
      meta_active = active;
      shm_size = segment_size active;
    } in
    elim calls.shm_open [
      | none ↦ (false, record s' { shm_fd = none }, seg, os)
      | some fd ↦
          let os' : Os = create_shm s'.shm_name (open_fd fd os) in
          if calls.ftruncate
          then elim calls.mapped [
            | none ↦ (false, record s' { shm_fd = none; shm_ptr = none }, seg, close fd os')
            | some p ↦
                start_mapped calls (record s' { shm_fd = some fd; shm_ptr = some p }) seg
                  (mmap p os')
          ]
          else (false, record s' { shm_fd = none }, seg, close fd os')
    ]
