-- ===== src/MacSocket.antt =====
-- src/macos/socket_base.cpp: `socket_base_pimpl`, one asynchronous socket of a kqueue, and what
-- `async_socket_base` adds to it. What the loop does with the events of a socket is in Events.
pub mod Events
pub mod Write
use Prim.Native.Nat.{bit_or}
use acpp_network.Prelude.{
  ℕ, suc, ◌*◌, Bool, true, false, ◌||◌, List, [], ◌∷◌, ◌++◌, Option, none, some, Result, Action,
  ◌>>=◌, ok, throw, socket_exception, ◌==◌, if◌then◌else◌, length, ℤ, pos, negsuc,
}
use acpp_network.Posix.{
  Fd, invalid_fd, Sockaddr, sizeof_sockaddr, Posix, so_sndbuf, so_reuseaddr, so_reuseport,
}
use acpp_network.SocketTypes.{SocketCallbacks, Hint, hint_send}
use acpp_network.SendLoop.{send_loop}

-- What a `struct kevent` asks for, by its filter and flags: EVFILT_READ with EV_ADD, EV_ENABLE and EV_CLEAR;
-- EVFILT_WRITE with EV_ADD and EV_ONESHOT; EVFILT_USER with EV_ADD and EV_CLEAR; NOTE_TRIGGER; EVFILT_TIMER with
-- EV_ADD and EV_ONESHOT, and a time; EV_DELETE of a timer. The number is `udata`, or a timer's `ident`.
pub data Change : Type 0 where
  read_clear write_oneshot : Fd → ℕ → Change
  user_clear user_trigger : Change
  timer_oneshot : ℕ → ℕ → Change
  timer_delete : ℕ → Change

pub record Kqueue : Type 1 where
  pub posix : Posix
  pub open posix use *
  pub kqueue : Kernel → Fd × Kernel
  -- kevent(2) with one change.
  pub kevent : Fd → Change → Kernel → Bool × Kernel

-- `this` is the address of the object; `io_` and `parent_` are the one loop and the one owner.
pub record SocketBasePimpl : Type 0 where
  pub this : ℕ
  pub domain_ : ℕ
  pub type_ : ℕ
  pub protocol_ : ℕ
  pub fd_ : Fd
  pub callbacks_ : SocketCallbacks
  pub connected_ : Bool
  pub listening_ : Bool

-- A callback that the loop makes, with its arguments.
pub data Call : Type 0 where
  connected disconnected : Call
  received : List ℕ → Call
  sent : ℕ → Call
  accepted : SocketBasePimpl → Call
  error : ℕ → Hint → Call

-- The system, the descriptor of the kqueue, the allocator, and the application.
pub record Env : Type 1 where
  pub mac : Kqueue
  pub open mac use *
  pub kq : Fd
  pub alloc : Kernel → ℕ
  pub app : Call → SocketBasePimpl → Kernel → SocketBasePimpl × Kernel

pub record Machine (e : Env) : Type 0 where
  pub sock : SocketBasePimpl
  pub kernel : e.Kernel
  pub calls : List Call

abbrev pub eagain : ℕ
eagain = 35

abbrev pub einprogress : ℕ
einprogress = 36

abbrev pub write_chunk : ℕ
write_chunk = 1024 * 4

abbrev pub valid : SocketBasePimpl → Bool
valid s = elim s.fd_ [ none ↦ false | some _ ↦ true ]

module _ (e : Env) where
  abbrev pub with_kernel : e.Kernel → Machine e → Machine e
  with_kernel k m = record m { kernel = k }

  set_nonblocking : Fd → e.Kernel → e.Kernel
  set_nonblocking none k = k
  set_nonblocking (some f) k =
      let (flags, k') = e.fcntl_getfl (some f) k in e.fcntl_setfl (some f) (bit_or flags 4) k'

  unfoldable pub of_fd : ℕ → ℕ → ℕ → Fd → SocketCallbacks → e.Kernel → SocketBasePimpl × e.Kernel
  unfolding set_nonblocking
  of_fd domain type protocol fd callbacks k = (
    record {
      this = e.alloc k;
      domain_ = domain;
      type_ = type;
      protocol_ = protocol;
      fd_ = fd;
      callbacks_ = callbacks;
      connected_ = false;
      listening_ = false;
    },
    set_nonblocking fd k,
  )

  pub create : ℕ → ℕ → ℕ → SocketCallbacks → e.Kernel → SocketBasePimpl × e.Kernel
  create domain type protocol callbacks k =
      let (fd, k') = e.socket domain type protocol k in of_fd domain type protocol fd callbacks k'

  pub get_send_buffer_size : ℕ → Machine e → ℕ × Machine e
  get_send_buffer_size size m =
      let (r, k) = e.getsockopt m.sock.fd_ so_sndbuf m.kernel in
      (elim r [ none ↦ size | some n ↦ n ], with_kernel k m)

  pub set_send_buffer_size : ℕ → Machine e → Machine e
  set_send_buffer_size size m = with_kernel (e.setsockopt m.sock.fd_ so_sndbuf size m.kernel).1 m

  -- A change that kevent refuses is thrown.
  unfoldable pub after_kevent : Bool × e.Kernel → Action (Machine e) (Unit {0})
  after_kevent (true, k) m = (ok tt, with_kernel k m)
  after_kevent (false, k) m = (throw (socket_exception (e.errno k)), with_kernel k m)

  unfoldable pub ask_read_event : Action (Machine e) (Unit {0})
  unfolding after_kevent
  ask_read_event m = after_kevent (e.kevent e.kq (read_clear m.sock.fd_ m.sock.this) m.kernel) m

  unfoldable pub ask_write_event : Action (Machine e) (Unit {0})
  unfolding after_kevent
  ask_write_event m = after_kevent (e.kevent e.kq (write_oneshot m.sock.fd_ m.sock.this) m.kernel) m

  -- `socket_base_pimpl::bind`; `async_socket_base::bind` does not call it.
  pub bind_reuse : Sockaddr → Machine e → Bool × Machine e
  bind_reuse addr m =
      let (_, k₁) = e.setsockopt m.sock.fd_ so_reuseaddr 1 m.kernel in
      let (_, k₂) = e.setsockopt m.sock.fd_ so_reuseport 1 k₁ in
      let (r, k₃) = e.bind m.sock.fd_ addr sizeof_sockaddr k₂ in (r, with_kernel k₃ m)

  -- `async_socket_base::bind`.
  pub bind : Sockaddr → Machine e → Bool × Machine e
  bind addr m = let (r, k) = e.bind m.sock.fd_ addr sizeof_sockaddr m.kernel in (r, with_kernel k m)

  after_listen : Bool × e.Kernel → Action (Machine e) ℤ
  after_listen (true, k) m =
      (ok (pos 0), record m { sock = record (m.sock) { listening_ = true }; kernel = k })
  after_listen (false, k) m = (ok (negsuc 0), with_kernel k m)

  pub listen : ℕ → Action (Machine e) ℤ
  listen backlog = ask_read_event >>= λ _ m. after_listen (e.listen m.sock.fd_ backlog m.kernel) m

  after_connect : Bool × e.Kernel → Action (Machine e) Bool
  after_connect (r, k) m = (ok (r || (e.errno k == einprogress)), with_kernel k m)

  pub connect : Sockaddr → Action (Machine e) Bool
  connect adr =
      ask_write_event >>= λ _ m. after_connect (e.connect m.sock.fd_ adr sizeof_sockaddr m.kernel) m

  -- A callback: the application runs, and the call is on record.
  unfoldable pub invoke : Call → Machine e → Machine e
  invoke c m =
      let (s, k) = e.app c m.sock m.kernel in
      record { sock = s; kernel = k; calls = m.calls ++ c ∷ [] }

  abbrev pub invoke_if : Bool → Call → Machine e → Machine e
  invoke_if set c m = if set then invoke c m else m

  unfoldable pub send_failed : Action (Machine e) ℕ
  send_failed m =
      if e.errno m.kernel == eagain
      then (ask_write_event >>= λ _ m'. (ok 0, m')) m
      else (ok 0, invoke_if m.sock.callbacks_.on_error (error (e.errno m.kernel) hint_send) m)

  unfoldable pub after_send : Option ℕ × e.Kernel → Action (Machine e) ℕ
  unfolding send_failed
  after_send (some n, k) m = (ok n, with_kernel k m)
  after_send (none, k) m = send_failed (with_kernel k m)

  unfoldable pub so_write_internal : List ℕ → Action (Machine e) ℕ
  unfolding after_send
  so_write_internal bytes m = after_send (e.send m.sock.fd_ bytes m.kernel) m

  unfoldable pub so_write : List ℕ → Action (Machine e) ℕ
  so_write bytes = send_loop so_write_internal write_chunk (suc (length bytes)) bytes 0

  unfoldable pub write : List ℕ → Action (Machine e) ℕ
  write bytes = so_write bytes

  pub close : Machine e → Machine e
  close m =
      if valid m.sock
      then record {
        sock = record (m.sock) { fd_ = invalid_fd };
        kernel = e.close m.sock.fd_ m.kernel;
        calls = m.calls;
      }
      else m

  -- The constructors of `async_socket_base`, through io_context::add_socket.
  pub add_socket : SocketBasePimpl × e.Kernel → Result (Unit {0}) × Machine e
  add_socket (s, k) = ask_read_event (record { sock = s; kernel = k; calls = [] })
