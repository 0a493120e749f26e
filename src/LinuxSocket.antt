-- ===== src/LinuxSocket.antt =====
-- src/linux/socket_base.cpp: `socket_base_pimpl`, one asynchronous socket of an epoll loop, and the
-- members of `async_socket_base` that forward to it. Its handler of events is in LinuxSocket/Events.
pub mod Laws
pub mod Registered
pub mod Write
pub mod Stops
pub mod Events
use Prim.Native.Nat.{bit_or}
use acpp_network.Prelude.{
  ℕ, zero, suc, ◌+◌, ◌*◌, Bool, true, false, ◌||◌, List, [], ◌∷◌, ◌++◌, Option, none, some, min,
  Action, ok, out_of_fuel, ◌==◌, if◌then◌else◌, length, take, drop,
}
use acpp_network.Posix.{
  Fd, invalid_fd, Sockaddr, sizeof_sockaddr, so_sndbuf, so_reuseaddr, so_reuseport, Linux, ctl_add,
  ctl_mod, epollin, epollout,
}
use acpp_network.SocketTypes.{SocketCallbacks, Hint, hint_send}

-- `this` is the address of the object, which epoll hands back. The pointers `io_` and `parent_` are
-- the one loop and the one owner of the model.
pub record SocketBasePimpl : Type 0 where
  pub this : ℕ
  pub domain_ : ℕ
  pub type_ : ℕ
  pub protocol_ : ℕ
  pub fd_ : Fd
  pub callbacks_ : SocketCallbacks
  pub connected_ : Bool
  pub listening_ : Bool
  pub write_enabled_ : Bool
  pub events_set_ : Bool

-- A callback that the loop makes, with its arguments.
pub data Call : Type 0 where
  connected : Call
  disconnected : Call
  received : List ℕ → Call
  sent : ℕ → Call
  accepted : SocketBasePimpl → Call
  error : ℕ → Hint → Call

-- The system, the loop's descriptor, the allocator, and the application: what a callback does to
-- the socket and to the kernel, by whatever calls of the library.
pub record Env : Type 1 where
  pub linux : Linux
  pub open linux use *
  pub epollfd : Fd
  pub alloc : Kernel → ℕ
  pub app : Call → SocketBasePimpl → Kernel → SocketBasePimpl × Kernel

-- The socket, the kernel, and the callbacks that the loop has made.
pub record Machine (e : Env) : Type 0 where
  pub sock : SocketBasePimpl
  pub kernel : e.Kernel
  pub calls : List Call

-- The platform's errno values.
abbrev pub eagain : ℕ
eagain = 11

abbrev pub einprogress : ℕ
einprogress = 115

-- The most that one `send` is given.
abbrev pub write_chunk : ℕ
write_chunk = 1024 * 20

abbrev pub valid : SocketBasePimpl → Bool
valid s = elim s.fd_ [ none ↦ false | some _ ↦ true ]

module _ (e : Env) where
  set_nonblocking : Fd → e.Kernel → e.Kernel
  set_nonblocking fd k =
      let (flags, k') = e.fcntl_getfl fd k in e.fcntl_setfl fd (bit_or flags 2048) k'

  -- The constructor from a descriptor.
  unfoldable pub of_fd : ℕ → ℕ → ℕ → Fd → SocketCallbacks → e.Kernel → SocketBasePimpl × e.Kernel
  unfolding set_nonblocking
  of_fd domain type protocol fd callbacks k = (
    record {
      this = e.alloc k;
      domain_ = domain;
      type_ = type;
      protocol_ = protocol;
      fd_ = fd;
      callbacks_ = callbacks;
      connected_ = false;
      listening_ = false;
      write_enabled_ = true;
      events_set_ = false;
    },
    elim fd [ none ↦ k | some f ↦ set_nonblocking (some f) k ],
  )

  -- The constructor that makes the socket.
  unfoldable pub create : ℕ → ℕ → ℕ → SocketCallbacks → e.Kernel → SocketBasePimpl × e.Kernel
  unfolding of_fd
  create domain type protocol callbacks k =
      let (fd, k') = e.socket domain type protocol k in of_fd domain type protocol fd callbacks k'

  -- `get_send_buffer_size`: on a failure the variable `size` keeps what it held, `size`.
  pub get_send_buffer_size : ℕ → Machine e → ℕ × Machine e
  get_send_buffer_size size m =
      let (r, k) = e.getsockopt m.sock.fd_ so_sndbuf m.kernel in
      (elim r [ none ↦ size | some n ↦ n ], record m { kernel = k })

  pub set_send_buffer_size : ℕ → Machine e → Machine e
  set_send_buffer_size size m =
      let (r, k) = e.setsockopt m.sock.fd_ so_sndbuf size m.kernel in record m { kernel = k }

  unfoldable pub bind : Sockaddr → Machine e → Bool × Machine e
  bind addr m =
      let (_, k₁) = e.setsockopt m.sock.fd_ so_reuseaddr 1 m.kernel in
      let (_, k₂) = e.setsockopt m.sock.fd_ so_reuseport 1 k₁ in
      let (r, k₃) = e.bind m.sock.fd_ addr sizeof_sockaddr k₂ in (r, record m { kernel = k₃ })

  unfoldable pub close : Machine e → Machine e
  close m = elim m.sock.fd_ [
    | none ↦ m
    | some f ↦ record m {
      sock = record (m.sock) { fd_ = invalid_fd };
      kernel = e.close (some f) m.kernel;
    }
  ]

  -- A callback: the application runs, and the call is on record.
  unfoldable pub invoke : Call → Machine e → Machine e
  invoke c m =
      let (s, k) = e.app c m.sock m.kernel in
      record { sock = s; kernel = k; calls = m.calls ++ c ∷ [] }

  -- `if (callbacks_.f) callbacks_.f(…)`
  abbrev pub invoke_if : Bool → Call → Machine e → Machine e
  invoke_if set c m = if set then invoke c m else m

  unfoldable pub after_ctl : Bool × e.Kernel → Machine e → Machine e
  after_ctl (true, k) m = record m { sock = record (m.sock) { events_set_ = true }; kernel = k }
  after_ctl (false, k) m = record m { kernel = k }

  unfoldable pub set_events : ℕ → Machine e → Machine e
  unfolding after_ctl
  set_events events m =
      after_ctl
        (e.epoll_ctl e.epollfd (if m.sock.events_set_ then ctl_mod else ctl_add) m.sock.fd_
          (record { events = events; ptr = m.sock.this }) m.kernel)
        m

  after_listen : Bool × e.Kernel → Machine e → Bool × Machine e
  after_listen (true, k) m =
      (true, record m { sock = record (m.sock) { listening_ = true }; kernel = k })
  after_listen (false, k) m = (false, record m { kernel = k })

  unfoldable pub listen : ℕ → Machine e → Bool × Machine e
  unfolding after_listen
  listen backlog m =
      let m' = set_events epollin m in after_listen (e.listen m'.sock.fd_ backlog m'.kernel) m'

  unfoldable pub connect : Sockaddr → Machine e → Bool × Machine e
  connect adr m =
      let m' = set_events (bit_or epollin epollout) m in
      let (r, k) = e.connect m'.sock.fd_ adr sizeof_sockaddr m'.kernel in
      (r || (e.errno k == einprogress), record m' { kernel = k })

  -- The kernel's buffer is full: ask for EPOLLOUT.
  unfoldable pub ask_writable : Machine e → Machine e
  ask_writable m =
      set_events (bit_or epollin epollout)
        (record m { sock = record (m.sock) { write_enabled_ = false } })

  unfoldable pub send_failed : Machine e → Machine e
  send_failed m =
      if e.errno m.kernel == eagain
      then ask_writable m
      else invoke_if m.sock.callbacks_.on_error (error (e.errno m.kernel) hint_send) m

  unfoldable pub after_send : Option ℕ × e.Kernel → Machine e → ℕ × Machine e
  after_send (some n, k) m = (n, record m { kernel = k })
  after_send (none, k) m = (0, send_failed (record m { kernel = k }))

  unfoldable pub so_write_internal : List ℕ → Machine e → ℕ × Machine e
  so_write_internal bytes m = after_send (e.send m.sock.fd_ bytes m.kernel) m

  -- The loop of `so_write`, with what is left to write and the count so far.
  unfoldable pub so_write_loop : ℕ → List ℕ → ℕ → Action (Machine e) ℕ
  so_write_loop zero bytes result m = (out_of_fuel, m)
  so_write_loop (suc fuel) bytes result m =
      let len_aux = min (length bytes) write_chunk in
      let (n, m') = so_write_internal (take len_aux bytes) m in
      let rest = so_write_loop fuel (drop n bytes) (result + n) m' in
      if n == 0 then (ok result, m') else rest

  unfoldable pub so_write : List ℕ → Action (Machine e) ℕ
  so_write bytes = so_write_loop (suc (length bytes)) bytes 0

  unfoldable pub write : List ℕ → Action (Machine e) ℕ
  write bytes = so_write bytes
