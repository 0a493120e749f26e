-- ===== src/WindowsSocket/Port.antt =====
-- src/windows/socket_base.cpp: `io_context`, whose loop takes completions from a port.
pub mod Invariants
use acpp_network.Prelude.{
  ℕ, zero, suc, Bool, true, false, ◌&&◌, List, [], ◌∷◌, ◌++◌, Option, none, some, Action, ◌>>=◌, ok,
  throw, out_of_fuel, fault, socket_exception, ◌==◌, if◌then◌else◌,
}
use acpp_network.WindowsSocket.{
  Env, Machine, SocketBasePimpl, Call, connected, disconnected, sent, received, accepted, error,
  ran, Completion, Operation, connect_operation, write_operation, accept_operation, read_operation,
  execution_operation, netname_deleted, wait_timeout,
}
use acpp_network.WindowsSocket.Operations.{M, with_kernel, with_socket, on_socket, start_read}

module _ (e : Env) where
  with_port : Option ℕ × e.Kernel → Action e.Kernel ℕ
  with_port (none, k) _ = (throw (socket_exception (e.last_error k)), k)
  with_port (some port, k) _ = (ok port, k)

  -- The constructor of `io_context`, which gives the port.
  pub create : Action e.Kernel ℕ
  create k = with_port (e.create_port k) k

  -- `exec`: a function that could not be posted is dropped.
  pub exec : ℕ → Machine e.winsock → Machine e.winsock
  exec f m = with_kernel e (e.post_exec m.port f m.kernel).1 m

  pub stop : Machine e.winsock → Machine e.winsock
  stop m = record m { run = false }

  -- A callback: it is on record, and the application runs.
  unfoldable pub invoke : Call → Machine e.winsock → Machine e.winsock
  invoke c m = e.app c (record m { calls = m.calls ++ c ∷ [] })

  abbrev pub invoke_if : Bool → Call → Machine e.winsock → Machine e.winsock
  invoke_if set c m = if set then invoke c m else m

  -- After an operation that failed: the loop goes on in every case.
  failed_on : ℕ → ℕ → Operation → SocketBasePimpl → M e (Unit {0})
  failed_on a err (read_operation bytes) s m = (
    ok tt,
    if err == netname_deleted
        then invoke_if s.callbacks_.on_disconnected (disconnected a) m
        else invoke_if s.callbacks_.on_error (error a err) m,
  )
  failed_on a err connect_operation s m = (ok tt, invoke_if s.callbacks_.on_error (error a err) m)
  failed_on a err write_operation s m = (ok tt, invoke_if s.callbacks_.on_error (error a err) m)
  failed_on a err accept_operation s m = (ok tt, invoke_if s.callbacks_.on_error (error a err) m)
  failed_on a err (execution_operation f) s m =
      (ok tt, invoke_if s.callbacks_.on_error (error a err) m)

  failed : Option ℕ → ℕ → Operation → M e (Unit {0})
  failed none err op m = (ok tt, m)
  failed (some a) err op m = on_socket e (m.sockets a) (failed_on a err op) m

  -- The new socket is read from, and handed over with all that it owns.
  unfoldable pub hand_over : ℕ → ℕ → SocketBasePimpl → M e (Unit {0})
  hand_over a b s m = (
    ok tt,
    if s.callbacks_.on_accepted
        then invoke (accepted a b) (with_socket e a (record s { new_socket = none }) m)
        else m,
  )

  unfoldable pub accept_done : ℕ → Option ℕ → M e (Unit {0})
  accept_done a none m = (throw fault, m)
  accept_done a (some b) m =
      (start_read e b >>= λ _ m'. on_socket e (m'.sockets a) (hand_over a b) m') m

  told_connected : ℕ → SocketBasePimpl → M e (Unit {0})
  told_connected a s m = (ok tt, invoke_if s.callbacks_.on_connected (connected a) m)

  read_done : ℕ → List ℕ → SocketBasePimpl → M e (Unit {0})
  read_done a [] s m = (ok tt, invoke_if s.callbacks_.on_disconnected (disconnected a) m)
  read_done a (b ∷ bs) s m =
      start_read e a (invoke_if s.callbacks_.on_received (received a (b ∷ bs)) m)

  write_done : ℕ → SocketBasePimpl → M e (Unit {0})
  write_done a s m = (
    ok tt,
    invoke_if s.callbacks_.on_sent (sent a) (with_socket e a (record s { write_in_use = false }) m),
  )

  done_on : ℕ → Operation → SocketBasePimpl → M e (Unit {0})
  done_on a accept_operation s m = accept_done a s.new_socket m
  done_on a connect_operation s m =
      (start_read e a >>= λ _ m'. on_socket e (m'.sockets a) (told_connected a) m') m
  done_on a (read_operation bytes) s m = read_done a bytes s m
  done_on a write_operation s m = write_done a s m
  done_on a (execution_operation f) s m = (ok tt, m)

  -- A function that was passed to `exec`; other operations with no socket are passed over.
  done_without : Option Operation → M e (Unit {0})
  done_without (some (execution_operation f)) m = (ok tt, invoke (ran f) m)
  done_without (some (read_operation bytes)) m = (ok tt, m)
  done_without (some connect_operation) m = (ok tt, m)
  done_without (some write_operation) m = (ok tt, m)
  done_without (some accept_operation) m = (ok tt, m)
  done_without none m = (ok tt, m)

  process : Option ℕ → Option Operation → M e (Unit {0})
  process none op m = done_without op m
  process (some a) none m = (throw fault, m)
  process (some a) (some op) m = on_socket e (m.sockets a) (done_on a op) m

  -- A completion that is no success. The result is whether the loop goes on.
  unsuccessful : Option ℕ → Option Operation → M e Bool
  unsuccessful a (some op) m = (failed a (e.last_error m.kernel) op >>= λ _ m'. (ok true, m')) m
  unsuccessful none none m = (ok (e.last_error m.kernel == wait_timeout), m)
  unsuccessful (some a) none m =
      if e.last_error m.kernel == wait_timeout then (ok true, m) else (throw fault, m)

  pub handle : Completion → M e Bool
  handle c m =
      if c.success
      then (process c.key c.overlapped >>= λ _ m'. (ok true, m')) m
      else unsuccessful c.key c.overlapped m

  pub loop : ℕ → M e (Unit {0})
  loop zero m = (out_of_fuel, m)
  loop (suc fuel) m =
      let (c, k) = e.get_completion m.kernel in
      let rest =
        (handle c >>= λ more m'. if more then loop fuel m' else (ok tt, m')) (with_kernel e k m) in
      if m.run then rest else (ok tt, m)

  pub wait_for_input : ℕ → M e (Unit {0})
  wait_for_input fuel m = loop fuel (record m { run = true })
