-- ===== src/MacSocket/Events.antt =====
-- src/macos/socket_base.cpp, `io_context_pimpl::wait_for_input`: what it does with the events EVFILT_READ and
-- EVFILT_WRITE of a socket.
pub mod Drained
use acpp_network.Prelude.{
  ℕ, zero, suc, ◌*◌, Bool, true, false, ◌||◌, List, [], ◌∷◌, Option, none, some, Result, Action,
  ◌>>=◌, ok, throw, out_of_fuel, bad_function_call, continue, ◌==◌, if◌then◌else◌,
}
use acpp_network.Posix.{Fd, so_error}
use acpp_network.SocketTypes.{no_callbacks, hint_accept, hint_recv, hint_getsockopt}
use acpp_network.MacSocket.{
  Env, Machine, SocketBasePimpl, connected, disconnected, received, sent, accepted, error, eagain,
  with_kernel, of_fd, ask_read_event, invoke, invoke_if, add_socket, close,
}

-- The buffer of the loop.
abbrev pub read_size : ℕ
read_size = 4 * 1024

-- The value that `getsockopt` leaves in `err`, which is 0 before.
abbrev pub or_zero : Option ℕ → ℕ
or_zero none = 0
or_zero (some n) = n

module _ (e : Env) where
  -- The second request for reads: where it throws, the destructor of the new `async_socket_base` closes its
  -- descriptor.
  owned_socket : Result (Unit {0}) × Machine e → Result (Unit {0}) × Machine e
  owned_socket (ok u, n) = (ok u, record n { sock = record (n.sock) { connected_ = true } })
  owned_socket (throw err, n) = (throw err, close e n)
  owned_socket (out_of_fuel, n) = (out_of_fuel, n)

  -- The new socket asks for reads in its constructor, and once more.
  new_socket : ℕ → Machine e → Result (Unit {0}) × Machine e
  new_socket f m =
      continue
        (add_socket e
          (of_fd e m.sock.domain_ m.sock.type_ m.sock.protocol_ (some f) no_callbacks m.kernel))
        (λ _ n. owned_socket (ask_read_event e n))

  -- The new socket is handed over; what its making threw is thrown.
  hand_over : Machine e → Result (Unit {0}) × Machine e → Result (Unit {0}) × Machine e
  hand_over m (ok _, n) = (ok tt, invoke e (accepted n.sock) (with_kernel e n.kernel m))
  hand_over m (throw err, n) = (throw err, with_kernel e n.kernel m)
  hand_over m (out_of_fuel, n) = (out_of_fuel, with_kernel e n.kernel m)

  after_accept : Fd × e.Kernel → Action (Machine e) (Unit {0})
  after_accept (none, k) m = (
    ok tt,
    invoke_if e m.sock.callbacks_.on_error (error (e.errno k) hint_accept) (with_kernel e k m),
  )
  after_accept (some f, k) m =
      if m.sock.callbacks_.on_accepted
      then hand_over (with_kernel e k m) (new_socket f (with_kernel e k m))
      else (ok tt, with_kernel e k m)

  recv_failed : Machine e → Machine e
  recv_failed m =
      if e.errno m.kernel == eagain
      then m
      else invoke_if e m.sock.callbacks_.on_error (error (e.errno m.kernel) hint_recv) m

  -- The end of the stream: the callback is called whether it is set or not.
  end_of_stream : Action (Machine e) (Unit {0})
  end_of_stream m =
      if m.sock.callbacks_.on_disconnected
      then (ok tt, invoke e disconnected m)
      else (throw bad_function_call, m)

  -- One turn of the loop of `recv`, with what the other turns do.
  turn :
      (Machine e → Result (Unit {0}) × Machine e)
      → Option (List ℕ) × e.Kernel
      → Action (Machine e) (Unit {0})
  turn rest (none, k) m = (ok tt, recv_failed (with_kernel e k m))
  turn rest (some [], k) m = end_of_stream (with_kernel e k m)
  turn rest (some (b ∷ bs), k) m =
      rest (invoke_if e m.sock.callbacks_.on_received (received (b ∷ bs)) (with_kernel e k m))

  pub read_loop : ℕ → Action (Machine e) (Unit {0})
  read_loop zero m = (out_of_fuel, m)
  read_loop (suc fuel) m = turn (read_loop fuel) (e.recv m.sock.fd_ read_size m.kernel) m

  -- EVFILT_READ.
  pub read_event : ℕ → Action (Machine e) (Unit {0})
  read_event fuel m =
      if m.sock.listening_
      then after_accept (e.accept m.sock.fd_ m.kernel) m
      else if m.sock.callbacks_.on_received || m.sock.callbacks_.on_disconnected
      then read_loop fuel m
      else (ok tt, m)

  connect_result : Option ℕ × e.Kernel → Action (Machine e) (Unit {0})
  connect_result (r, k) m =
      let m' = with_kernel e k m in
      if or_zero r == 0
      then ask_read_event e (invoke_if e m.sock.callbacks_.on_connected connected m')
      else (ok tt, invoke_if e m.sock.callbacks_.on_error (error (e.errno k) hint_getsockopt) m')

  connect_done : Action (Machine e) (Unit {0})
  connect_done m =
      let m' : Machine e = record m { sock = record (m.sock) { connected_ = true } } in
      connect_result (e.getsockopt m'.sock.fd_ so_error m'.kernel) m'

  -- EVFILT_WRITE.
  pub write_event : Action (Machine e) (Unit {0})
  write_event m =
      if m.sock.connected_
      then (ok tt, invoke_if e m.sock.callbacks_.on_sent (sent 0) m)
      else connect_done m
