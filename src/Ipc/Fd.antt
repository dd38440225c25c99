-- ===== src/Ipc/Fd.antt =====
-- gst/common/fd_ipc.h: descriptors over a unix socket, and the two ends of the socket.
use gst_nvmm_cpp.Common.{
  ℕ, ◌<◌, ◌≡◌, refl, List, [], ◌∷◌, ◌++◌, Option, none, some, Bool, ◌&&◌, ◌||◌, not, length, take,
  take-all, leb, ◌==◌, if◌then◌else◌, arith, ◌⊎◌, inl,
}
use gst_nvmm_cpp.Ipc.Os.{
  Os, FileName, open_fd, close, close_all, close_all-append, bind_file, unlink, erase-cons_self,
  remove_name, remove_name_twice, remove_name-cons,
}

-- The control message that recvmsg leaves: whether its level and type are SOL_SOCKET and
-- SCM_RIGHTS, and the descriptors in it, which are open in the process by then.
pub record Control : Type 0 where
  pub sol_socket : Bool
  pub scm_rights : Bool
  pub fds : List ℕ

-- What recvmsg does: it fails, leaves no control message, or leaves one.
pub data Received : Type 0 where
  failed : Received
  plain : Received
  control : Control → Received

-- What recvmsg opens: only SCM_RIGHTS messages carry descriptors.
abbrev pub installed : Received → List ℕ
installed failed = []
installed plain = []
installed (control c) = if c.sol_socket && c.scm_rights then c.fds else []

-- nvmm_send_fds: 0 if sendmsg sends, -1 if it fails.
abbrev pub send_fds : Bool → Bool
send_fds sent = sent

-- nvmm_recv_fds with the outcome of recvmsg: the descriptors, or `none` for -1.
unfoldable pub recv_fds : Received → ℕ → Os → Option (List ℕ) × Os
recv_fds failed count os = (none, os)
recv_fds plain count os = (none, os)
recv_fds (control c) count os =
    if not c.sol_socket || not c.scm_rights
    then (none, os)
    else (if length c.fds == count
        then (some (take count c.fds), os)
        else (none, close_all c.fds os))

-- sizeof(sockaddr_un::sun_path)
abbrev pub sun_path_bytes : ℕ
sun_path_bytes = 108

-- nvmm_server_listen; `sock`, `bound` and `listening` are the answers of socket, bind and listen.
unfoldable pub server_listen : FileName → Option ℕ → Bool → Bool → Os → Option ℕ × Os
server_listen path none bound listening os = (none, unlink path os)
server_listen path (some sock) bound listening os =
    let opened : Os = open_fd sock (unlink path os) in
    if leb sun_path_bytes (length path)
    then (none, close sock opened)
    else (if bound
        then (if listening
            then (some sock, bind_file path opened)
            else (none, unlink path (close sock (bind_file path opened))))
        else (none, close sock opened))

-- nvmm_client_connect
unfoldable pub client_connect : FileName → Option ℕ → Bool → Os → Option ℕ × Os
client_connect path none connected os = (none, os)
client_connect path (some sock) connected os =
    if leb sun_path_bytes (length path)
    then (none, close sock (open_fd sock os))
    else (if connected then (some sock, open_fd sock os) else (none, close sock (open_fd sock os)))

-- A call that fails leaves open what was open before the message came; a call that succeeds hands
-- over exactly `count` descriptors, which are all that the message brought.
pub recv_fds_no_leak :
    (r : Received) (count : ℕ) (os : Os) (before : List ℕ)
    → os.open_fds ≡ installed r ++ before
    → let (got, os') = recv_fds r count os in
      ((got ≡ none) × (os'.open_fds ≡ before))
      ⊎ ((fds : List ℕ) × (got ≡ some fds)
          × (length fds ≡ count)
          × (fds ≡ installed r)
          × (os'.open_fds ≡ fds ++ before))
unfolding recv_fds
recv_fds_no_leak failed count os before h = inl (refl, h)
recv_fds_no_leak plain count os before h = inl (refl, h)
recv_fds_no_leak (control c) count os before h =
    ground (arith, close_all-append c.fds before os, take-all count c.fds)

-- Either the socket is open, bound to a path that fits, and nothing else is; or nothing is open that
-- was not, and no socket file of that name is left.
pub server_listen_lem :
    (path : FileName) (sock : Option ℕ) (bound listening : Bool) (os : Os)
    → let (got, os') = server_listen path sock bound listening os in
      ((got ≡ none)
        × (os'.open_fds ≡ os.open_fds)
        × (os'.socket_files ≡ remove_name path os.socket_files))
      ⊎ ((s : ℕ) × (got ≡ some s)
          × (length path < sun_path_bytes)
          × (os'.open_fds ≡ s ∷ os.open_fds)
          × (os'.socket_files ≡ path ∷ remove_name path os.socket_files))
unfolding server_listen
server_listen_lem path none bound listening os = inl (refl, refl, refl)
server_listen_lem path (some sock) bound listening os = ground (
  arith,
  erase-cons_self sock os.open_fds,
  remove_name-cons path (remove_name path os.socket_files),
  remove_name_twice path os.socket_files,
)

-- Either the socket is open and the path fits, or nothing is open that was not.
pub client_connect_lem :
    (path : FileName) (sock : Option ℕ) (connected : Bool) (os : Os)
    → let (got, os') = client_connect path sock connected os in
      ((got ≡ none) × (os'.open_fds ≡ os.open_fds))
      ⊎ ((s : ℕ) × (got ≡ some s)
          × (length path < sun_path_bytes)
          × (os'.open_fds ≡ s ∷ os.open_fds))
unfolding client_connect
client_connect_lem path none connected os = inl (refl, refl)
client_connect_lem path (some sock) connected os = ground (arith, erase-cons_self sock os.open_fds)
