-- ===== src/LinuxSocket/Events.antt =====
-- src/linux/socket_base.cpp: `socket_base_pimpl::handle_event`, what the loop does with the events that
-- epoll reports for one socket.
pub mod Wakeup
pub mod Input
pub mod Connects
use Prim.Native.Nat.{bit_and}
use acpp_network.Prelude.{
  ℕ, ◌*◌, Bool, true, false, ◌||◌, List, [], ◌∷◌, Option, none, some, Action, ok, throw,
  bad_function_call, ◌==◌, if◌then◌else◌,
}
use acpp_network.Posix.{Fd, so_error, epollin, epollout}
use acpp_network.SocketTypes.{no_callbacks, hint_getsockopt, hint_accept, hint_recv}
use acpp_network.LinuxSocket.{
  Env, Machine, Call, connected, disconnected, received, sent, accepted, error, invoke, invoke_if,
  set_events, of_fd,
}

abbrev pub or_zero : Option ℕ → ℕ
or_zero none = 0
or_zero (some n) = n

-- The size of the buffer that `recv` fills.
abbrev read_size : ℕ
read_size = 1024 * 4

module _ (e : Env) where
  -- The first EPOLLOUT of a socket: the connection is there, or it failed.
  pub connect_done : Machine e → Machine e
  connect_done m =
      let (r, k) = e.getsockopt m.sock.fd_ so_error m.kernel in
      let m' : Machine e = record m { kernel = k } in
      if or_zero r == 0
      then invoke_if e m'.sock.callbacks_.on_connected connected m'
      else invoke_if e m'.sock.callbacks_.on_error (error (e.errno k) hint_getsockopt) m'

  pub writable : Machine e → Machine e
  writable m =
      let m₁ = set_events e epollin m in
      let m₂ : Machine e = record m₁ { sock = record (m₁.sock) { write_enabled_ = true } } in
      if m₂.sock.connected_
      then invoke_if e m₂.sock.callbacks_.on_sent (sent 0) m₂
      else connect_done (record m₂ { sock = record (m₂.sock) { connected_ = true } })

  -- The socket of a new connection, registered for reading.
  pub new_socket : ℕ → Machine e → Machine e
  new_socket f m =
      let (s, k) =
        of_fd e m.sock.domain_ m.sock.type_ m.sock.protocol_ (some f) no_callbacks m.kernel in
      let n = set_events e epollin (record { sock = s; kernel = k; calls = [] }) in
      record n { sock = record (n.sock) { connected_ = true } }

  after_accept : Fd × e.Kernel → Machine e → Machine e
  after_accept (none, k) m =
      invoke_if e m.sock.callbacks_.on_error (error (e.errno k) hint_accept)
        (record m { kernel = k })
  after_accept (some f, k) m =
      let n = new_socket f (record m { kernel = k }) in
      if m.sock.callbacks_.on_accepted
      then invoke e (accepted n.sock) (record m { kernel = n.kernel })
      else record m { kernel = k }

  pub accept_event : Machine e → Machine e
  accept_event m = after_accept (e.accept m.sock.fd_ m.kernel) m

  -- A call of a `std::function`, which throws if it is empty.
  abbrev call_function : Bool → Call → Action (Machine e) (Unit {0})
  call_function set c m = if set then (ok tt, invoke e c m) else (throw bad_function_call, m)

  after_recv : Option (List ℕ) × e.Kernel → Action (Machine e) (Unit {0})
  after_recv (none, k) m = (
    ok tt,
    invoke_if e m.sock.callbacks_.on_error (error (e.errno k) hint_recv) (record m { kernel = k }),
  )
  after_recv (some [], k) m =
      call_function m.sock.callbacks_.on_disconnected disconnected (record m { kernel = k })
  after_recv (some (b ∷ bs), k) m =
      call_function m.sock.callbacks_.on_received (received (b ∷ bs)) (record m { kernel = k })

  pub read_event : Action (Machine e) (Unit {0})
  read_event m =
      if m.sock.callbacks_.on_received || m.sock.callbacks_.on_disconnected
      then after_recv (e.recv m.sock.fd_ read_size m.kernel) m
      else (ok tt, m)

  pub readable : Action (Machine e) (Unit {0})
  readable m = if m.sock.listening_ then (ok tt, accept_event m) else read_event m

  pub handle_event : ℕ → Action (Machine e) (Unit {0})
  handle_event events m =
      let m' = if bit_and events epollout == 0 then m else writable m in
      if bit_and events epollin == 0 then (ok tt, m') else readable m'
