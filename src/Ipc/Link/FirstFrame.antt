-- ===== src/Ipc/Link/FirstFrame.antt =====
-- From the starts of both ends to the first frame (gst/nvmmsink/gstnvmmsink.cpp,
-- gst/nvmmappsrc/gstnvmmappsrc.cpp).
use gst_nvmm_cpp.Common.{
  ℕ, List, ◌≡◌, refl, Option, none, some, Bool, true, false, arith, ◌&&◌, ◌==◌, Bool-cases,
  Option-cases, inl, inr,
}
use gst_nvmm_cpp.Ipc.Protocol.{Segment, shm_version}
use gst_nvmm_cpp.Ipc.Os.{Os}
use gst_nvmm_cpp.Ipc.Fd.{client_connect}
use gst_nvmm_cpp.Ipc.Sink.State.{Sink, Created, VideoInfo}
use gst_nvmm_cpp.Ipc.Sink.Lifecycle as Producer
use gst_nvmm_cpp.Ipc.Sink.Lifecycle.{set_caps, allocate_pool, pool_format}
use gst_nvmm_cpp.Ipc.Sink.Render.{flow_eos, Frame, render, render_into}
use gst_nvmm_cpp.Ipc.AppSrc.State.{AppSrc}
use gst_nvmm_cpp.Ipc.AppSrc.Lifecycle as Consumer
use gst_nvmm_cpp.Ipc.AppSrc.Lifecycle.{start_import, start_socket, start_announced, wait_producer}
use gst_nvmm_cpp.Ipc.AppSrc.Create.{create}
use gst_nvmm_cpp.Ipc.Link.World.{alone}
use gst_nvmm_cpp.Ipc.Link.Delivery.{create_gives_up}

-- The next frame has number 0, and the segment shows no other.
abbrev Zero : Sink → Segment → Type 0
Zero s seg = (s.frame_number ≡ 0) × (seg.header.frame_number ≡ 0)

start_mapped-Zero :
    (calls : Producer.StartCalls) (s : Sink) (seg : Segment) (os : Os)
    → let (done, s', seg', os') = Producer.start_mapped calls s seg os in done ≡ true → Zero s' seg'
unfolding Producer.start_mapped
start_mapped-Zero calls s seg os h = ground arith

start-Zero :
    (deepstream : Bool) (calls : Producer.StartCalls) (s : Sink) (seg : Segment) (os : Os)
    → let (done, s', seg', os') = Producer.start deepstream calls s seg os in
      done ≡ true → Zero s' seg'
unfolding Producer.start
start-Zero deepstream calls s seg os h = grind (arith, start_mapped-Zero)

allocate_pool-number :
    (created : ℕ → Option Created) (s : Sink) (os : Os)
    → (allocate_pool created s os).1.frame_number ≡ s.frame_number
unfolding allocate_pool
allocate_pool-number created s os = elim (Bool-cases (pool_format s.video_info.format)) [
  | inl e ↦ rw e refl
  | inr e ↦ rw e refl
]

set_caps-Zero :
    (info : Option VideoInfo) (created : ℕ → Option Created) (s : Sink) (seg : Segment) (os : Os)
    → Zero s seg
    → let (done, s', seg', os') = set_caps info created s seg os in Zero s' seg'
unfolding set_caps Producer.describe
set_caps-Zero none created s seg os z = z
set_caps-Zero (some info) created s seg os z =
    ground (arith, allocate_pool-number created (record s { video_info = info }) os)

render-Zero :
    (deepstream : Bool) (frame : Frame) (s : Sink) (seg : Segment)
    → Zero s seg
    → (render deepstream frame s seg).2.header.frame_number ≡ 0
unfolding render render_into
render-Zero deepstream frame s seg z = ground arith

-- A reader that has started: mapped, with 0 as the number it saw last.
abbrev Attached : Option ℕ → AppSrc → Type 0
Attached p s = (s.shm_ptr ≡ p) × (s.last_frame_number ≡ 0)

start_import-Attached :
    (calls : Consumer.StartCalls) (fds : List ℕ) (s : AppSrc) (os : Os)
    → let (done, s', os') = start_import calls fds s os in done ≡ true → Attached s.shm_ptr s'
unfolding start_import
start_import-Attached calls fds s os h = ground arith

start_socket-Attached :
    (calls : Consumer.StartCalls) (sock : ℕ) (s : AppSrc) (os : Os)
    → let (done, s', os') = start_socket calls sock s os in done ≡ true → Attached s.shm_ptr s'
unfolding start_socket
start_socket-Attached calls sock s os h = grind (arith, start_import-Attached)

start_announced-Attached :
    (calls : Consumer.StartCalls) (s : AppSrc) (os : Os) (announced : Bool) (seg : Segment)
    → let (done, s', seg', os') = start_announced calls s os (announced, seg) in
      done ≡ true → Attached s.shm_ptr s'
unfolding start_announced
start_announced-Attached calls s os announced seg =
    let c = client_connect seg.header.socket_path calls.socket calls.connected os in
    elim (Bool-cases (announced && seg.header.version == shm_version)) [
      | inr e ↦ rw e λ h. cc
      | inl e ↦ elim (Option-cases c.0) [
        | inl n ↦ rw (e, n) λ h. cc
        | inr (fd, n) ↦ rw (e, n) (start_socket-Attached calls fd _ c.1)
      ]
    ]

reader_mapped-Attached :
    (calls : Consumer.StartCalls) (s : AppSrc) (seg : Segment) (os : Os)
    → let (done, s', seg', os') = Consumer.start_mapped calls s seg os in
      done ≡ true → Attached s.shm_ptr s'
unfolding Consumer.start_mapped
reader_mapped-Attached calls s seg os =
    let w = wait_producer calls.others 5000 0 seg in start_announced-Attached calls s os w.0 w.1

reader_start-Attached :
    (calls : Consumer.StartCalls) (s : AppSrc) (seg : Segment) (os : Os)
    → let (done, s', seg', os') = Consumer.start calls s seg os in
      done ≡ true → (p : ℕ) × Attached (some p) s'
unfolding Consumer.start
reader_start-Attached calls s seg os = elim (Option-cases calls.shm_open) [
  | inl o ↦ rw (o, Consumer.start) λ h. cc
  | inr (fd, o) ↦ elim (Option-cases calls.st_size) [
    | inl z ↦ rw (o, z, Consumer.start) λ h. cc
    | inr (size, z) ↦ elim (Bool-cases (size == 0)) [
      | inl b ↦ rw (o, z, b, Consumer.start) λ h. cc
      | inr b ↦ elim (Option-cases calls.mapped) [
        | inl m ↦ rw (o, z, b, m, Consumer.start) λ h. cc
        | inr (p, m) ↦
            rw (o, z, b, m, Consumer.start) λ h. (p, reader_mapped-Attached calls _ seg _ h)
      ]
    ]
  ]
]

-- A producer has just started, negotiated its caps and rendered its first frame, and a reader has just
-- started, whatever it found. If nothing else happens, the reader's create on the producer's segment ends
-- with EOS and hands out no buffer, whether or not render published the frame: its number is 0, which is also
-- the number that the reader's start takes for the one it saw last.
pub first_frame_unseen :
    (deepstream : Bool) (frame : Frame) (made : Producer.StartCalls) (info : Option VideoInfo)
    (created : ℕ → Option Created) (sink : Sink) (seg : Segment) (os : Os)
    (calls : Consumer.StartCalls) (src : AppSrc) (found : Segment) (os' : Os)
    → (Producer.start deepstream made sink seg os).0 ≡ true
    → (Consumer.start calls src found os').0 ≡ true
    → let (done, sink1, seg1, os1) = Producer.start deepstream made sink seg os in
      let (set, sink2, seg2, os2) = set_caps info created sink1 seg1 os1 in
      let (flow, sink3, seg3) = render deepstream frame sink2 seg2 in
      let (started, src1, found1, os3) = Consumer.start calls src found os' in
      create (alone (λ i. false)) src1 seg3 ≡ (flow_eos, none, src1, seg3)
first_frame_unseen deepstream frame made info created sink seg os calls src found os' h k =
    let (done, sink1, seg1, os1) = Producer.start deepstream made sink seg os in
    let (set, sink2, seg2, os2) = set_caps info created sink1 seg1 os1 in
    let first = start-Zero deepstream made sink seg os h in
    let n =
      render-Zero deepstream frame sink2 seg2 (set_caps-Zero info created sink1 seg1 os1 first) in
    let (p, attached) = reader_start-Attached calls src found os' k in
    create_gives_up _ _ p attached.0 (ground (arith, n, attached.1))
