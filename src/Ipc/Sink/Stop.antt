-- ===== src/Ipc/Sink/Stop.antt =====
-- gst/nvmmsink/gstnvmmsink.cpp: the clients of the accept thread, and stop.
use gst_nvmm_cpp.Common.{
  ℕ, zero, suc, ◌+◌, [], ◌∷◌, ◌++◌, Option, none, some, Bool, true, false, if◌then◌else◌, ◌&&◌,
}
use gst_nvmm_cpp.Ipc.Os.{Os, FileName, close, close_all, munmap, unlink, shm_unlink}
use gst_nvmm_cpp.Ipc.Fd.{send_fds}
use gst_nvmm_cpp.Ipc.Sink.State.{Sink}
use gst_nvmm_cpp.Ipc.Sink.Lifecycle.{destroy_pool}

-- What `send` and sendmsg answer for one client.
pub record Sends : Type 0 where
  pub pool_size : Bool
  pub map_params : ℕ → Bool
  pub fds : Bool

-- Every one of `k` sends from index `i` on is complete.
unfoldable pub all_sent : (ℕ → Bool) → ℕ → ℕ → Bool
all_sent sent zero i = true
all_sent sent (suc k) i = sent i && all_sent sent k (i + 1)

-- send_fds_to_client
unfoldable pub send_fds_to_client : Sends → ℕ → Sink → Os → Sink × Os
unfolding all_sent
send_fds_to_client sends client s os =
    if sends.pool_size && (all_sent sends.map_params s.pool_size 0 && send_fds sends.fds)
    then (record s { client_fds = s.client_fds ++ (client ∷ []) }, os)
    else (s, close client os)

-- One round of accept_loop: poll times out or accept fails; or a client comes, `stopped` says
-- whether `running` fell before there was a pool, and the client gets the descriptors.
pub data Accept : Type 0 where
  nobody : Accept
  client : ℕ → Bool → Sends → Accept

unfoldable pub accept_round : Accept → Sink → Os → Sink × Os
accept_round nobody s os = (s, os)
accept_round (client fd stopped sends) s os =
    if stopped then (s, close fd os) else send_fds_to_client sends fd s os

abbrev pub close_option : Option ℕ → Os → Os
close_option none os = os
close_option (some fd) os = close fd os

abbrev pub munmap_option : Option ℕ → Os → Os
munmap_option none os = os
munmap_option (some p) os = munmap p os

abbrev pub unlink_named : FileName → Os → Os
unlink_named [] os = os
unlink_named (c ∷ name) os = unlink (c ∷ name) os

-- gst_nvmm_sink_stop. The accept thread is joined first.
unfoldable pub stop : Sink → Os → Sink × Os
stop s os =
    let closed : Os =
      unlink_named s.socket_path (close_option s.listen_fd (close_all s.client_fds os)) in
    let quiet : Sink = record s {
      running = false;
      client_fds = [];
      listen_fd = none;
      socket_path = [];
    } in
    let (bare, os') = destroy_pool quiet closed in
    (
      record bare { shm_ptr = none; shm_fd = none },
      shm_unlink s.shm_name (close_option s.shm_fd (munmap_option s.shm_ptr os')),
    )
