-- ===== src/Tests/Starts.antt =====
-- gst/nvmmsink/gstnvmmsink.cpp: a start whose listening call fails, and the stop after it.
use gst_nvmm_cpp.Common.{ℕ, zero, suc, ◌≡◌, refl, [], ◌∷◌, none, some, true, false, All, replicate}
use gst_nvmm_cpp.Ipc.Protocol.{Segment, pool_capacity}
use gst_nvmm_cpp.Ipc.Os.{Os}
use gst_nvmm_cpp.Ipc.Fd.{server_listen}
use gst_nvmm_cpp.Ipc.Sink.State.{no_buffer, init}
use gst_nvmm_cpp.Ipc.Sink.Lifecycle.{StartCalls, start, start_mapped, fresh_header, socket_name}
use gst_nvmm_cpp.Ipc.Sink.Stop.{stop}
use gst_nvmm_cpp.Ipc.Sink.Ownership.{IsIdle, SameOpen, stop-start}

no_surfaces : (n : ℕ) → All (λ b. b.surface ≡ none) (replicate n no_buffer)
no_surfaces zero = tt
no_surfaces (suc n) = (refl, no_surfaces n)

init-IsIdle : IsIdle init
init-IsIdle = record {
  unmapped = refl;
  silent = refl;
  alone = refl;
  empty = no_surfaces pool_capacity;
}

abbrev deaf : StartCalls
deaf = record {
  shm_open = some 5;
  ftruncate = true;
  mapped = some 4096;
  socket = some 6;
  bound = true;
  listening = false;
}

abbrev running : Os
running = record {
  open_fds = 2 ∷ [];
  mappings = [];
  surfaces = [];
  socket_files = [];
  shm_files = [];
}

abbrev segment : Segment
segment = record { header = fresh_header false; metas = [] }

stop-start_example :
    let (done, s', seg', os') = start false deaf init segment running in
    SameOpen (stop s' os').1 running
stop-start_example = stop-start false deaf init segment running init-IsIdle

-- The start fails and leaves the descriptor of the segment open.
left_open : (start false deaf init segment running).3.open_fds ≡ 5 ∷ 2 ∷ []
unfolding start start_mapped server_listen socket_name
left_open = refl
