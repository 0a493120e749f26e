-- ===== src/WindowsSocket/Port/Invariants.antt =====
-- Properties that the loop keeps: it is enough that they are kept by a read that is started, by a callback,
-- and by the two assignments of the loop.
use acpp_network.Prelude.{
  ℕ, zero, suc, ◌≡◌, refl, Bool, true, false, List, [], ◌∷◌, Option, none, some, Result, ok, throw,
  out_of_fuel, continue, if_cases, if◌then◌else◌, ◌||◌, ◌==◌,
}
use acpp_network.Posix.{Fd}
use acpp_network.WindowsSocket.{
  Env, Machine, SocketBasePimpl, Call, connected, disconnected, sent, received, accepted, error,
  ran, Completion, Operation, connect_operation, write_operation, accept_operation, read_operation,
  execution_operation, io_pending, netname_deleted, wait_timeout, operation_buffer,
}
use acpp_network.WindowsSocket.Operations.{
  M, with_kernel, with_socket, on_socket, overlapped, start_read,
}
use acpp_network.WindowsSocket.Port.{
  invoke, invoke_if, failed_on, failed, accept_done, told_connected, read_done, write_done, done_on,
  done_without, process, unsuccessful, handle, loop,
}

abbrev pub is_accepted : Call → Bool
is_accepted (accepted a b) = true
is_accepted (connected a) = false
is_accepted (disconnected a) = false
is_accepted (sent a) = false
is_accepted (received a bytes) = false
is_accepted (error a err) = false
is_accepted (ran f) = false

-- `P` holds of the machine; the completion being handled is no write and no accept.
pub record Kept (e : Env) : Type 1 where
  pub P : Machine e.winsock → Type 0
  pub recv :
      (fd : Fd) (a : ℕ) (m : Machine e.winsock)
      → P m
      → P (with_kernel e (e.wsa_recv fd a operation_buffer m.kernel).1 m)
  pub call : (c : Call) (m : Machine e.winsock) → is_accepted c ≡ false → P m → P (invoke e c m)

module _ (e : Env) (k : Kept e) where
  abbrev pub Holds : {A : Type 0} → Result A × Machine e.winsock → Type 0
  Holds x = k.P x.1

  pub continue-Holds :
      {A B : Type 0} (x : Result A × Machine e.winsock) (f : A → M e B)
      → Holds x
      → ((a : A) (m : Machine e.winsock) → k.P m → Holds (f a m))
      → Holds (continue x f)
  continue-Holds (ok a, m) f h g = g a m h
  continue-Holds (throw x, m) f h g = h
  continue-Holds (out_of_fuel, m) f h g = h

  pub on_socket-Holds :
      {A : Type 0} (o : Option SocketBasePimpl) (f : SocketBasePimpl → M e A)
      (m : Machine e.winsock)
      → k.P m
      → ((s : SocketBasePimpl) → o ≡ some s → Holds (f s m))
      → Holds (on_socket e o f m)
  on_socket-Holds none f m h g = h
  on_socket-Holds (some s) f m h g = g s refl

  pub overlapped-Holds :
      (r : Bool) (x : e.Kernel) (m : Machine e.winsock)
      → k.P (with_kernel e x m)
      → Holds (overlapped e (r, x) m)
  unfolding overlapped
  overlapped-Holds r x m h = if_cases Holds (r || (e.last_error x == io_pending)) (λ _. h) (λ _. h)

  pub start_read-Holds : (a : ℕ) (m : Machine e.winsock) → k.P m → Holds (start_read e a m)
  unfolding start_read
  start_read-Holds a m h = on_socket-Holds (m.sockets a) _ m h (λ s _.
      overlapped-Holds (e.wsa_recv s.fd_ a operation_buffer m.kernel).0
        (e.wsa_recv s.fd_ a operation_buffer m.kernel).1 m (k.recv s.fd_ a m h))

  pub invoke_if-Holds :
      (b : Bool) (c : Call) (m : Machine e.winsock)
      → is_accepted c ≡ false
      → k.P m
      → k.P (invoke_if e b c m)
  invoke_if-Holds b c m n h = if_cases k.P b (λ _. k.call c m n h) (λ _. h)

  failed_on-Holds :
      (a err : ℕ) (op : Operation) (s : SocketBasePimpl) (m : Machine e.winsock)
      → k.P m
      → Holds (failed_on e a err op s m)
  unfolding failed_on
  failed_on-Holds a err (read_operation bytes) s m h =
      if_cases k.P (err == netname_deleted)
        (λ _. invoke_if-Holds s.callbacks_.on_disconnected (disconnected a) m refl h)
        (λ _. invoke_if-Holds s.callbacks_.on_error (error a err) m refl h)
  failed_on-Holds a err connect_operation s m h = invoke_if-Holds _ (error a err) m refl h
  failed_on-Holds a err write_operation s m h = invoke_if-Holds _ (error a err) m refl h
  failed_on-Holds a err accept_operation s m h = invoke_if-Holds _ (error a err) m refl h
  failed_on-Holds a err (execution_operation f) s m h = invoke_if-Holds _ (error a err) m refl h

  failed-Holds :
      (key : Option ℕ) (err : ℕ) (op : Operation) (m : Machine e.winsock)
      → k.P m
      → Holds (failed e key err op m)
  unfolding failed
  failed-Holds none err op m h = h
  failed-Holds (some a) err op m h =
      on_socket-Holds (m.sockets a) _ m h (λ s _. failed_on-Holds a err op s m h)

  unsuccessful-Holds :
      (key : Option ℕ) (op : Option Operation) (m : Machine e.winsock)
      → k.P m
      → Holds (unsuccessful e key op m)
  unfolding unsuccessful
  unsuccessful-Holds key (some op) m h =
      continue-Holds (failed e key (e.last_error m.kernel) op m) _
        (failed-Holds key (e.last_error m.kernel) op m h) (λ _ m' h'. h')
  unsuccessful-Holds none none m h = h
  unsuccessful-Holds (some a) none m h =
      if_cases Holds (e.last_error m.kernel == wait_timeout) (λ _. h) (λ _. h)

  read_done-Holds :
      (a : ℕ) (bytes : List ℕ) (s : SocketBasePimpl) (m : Machine e.winsock)
      → k.P m
      → Holds (read_done e a bytes s m)
  unfolding read_done
  read_done-Holds a [] s m h = invoke_if-Holds _ (disconnected a) m refl h
  read_done-Holds a (b ∷ bs) s m h =
      start_read-Holds a _ (invoke_if-Holds _ (received a (b ∷ bs)) m refl h)

  -- What is asked of the two operations that the rules do not cover.
  abbrev pub Finishes : ℕ → Operation → Machine e.winsock → Type 0
  Finishes a write_operation m =
      (s : SocketBasePimpl)
      → m.sockets a ≡ some s
      → k.P (with_socket e a (record s { write_in_use = false }) m)
  Finishes a accept_operation m =
      (s : SocketBasePimpl) → m.sockets a ≡ some s → Holds (accept_done e a s.new_socket m)
  Finishes a connect_operation m = Unit {0}
  Finishes a (read_operation bytes) m = Unit {0}
  Finishes a (execution_operation f) m = Unit {0}

  done_on-Holds :
      (a : ℕ) (op : Operation) (s : SocketBasePimpl) (m : Machine e.winsock)
      → k.P m
      → Finishes a op m
      → m.sockets a ≡ some s
      → Holds (done_on e a op s m)
  unfolding done_on write_done told_connected
  done_on-Holds a accept_operation s m h f own = f s own
  done_on-Holds a connect_operation s m h f own =
      continue-Holds (start_read e a m) _ (start_read-Holds a m h) (λ _ m' h'.
        on_socket-Holds (m'.sockets a) _ m' h' (λ s' _. invoke_if-Holds _ (connected a) m' refl h'))
  done_on-Holds a (read_operation bytes) s m h f own = read_done-Holds a bytes s m h
  done_on-Holds a write_operation s m h f own = invoke_if-Holds _ (sent a) _ refl (f s own)
  done_on-Holds a (execution_operation g) s m h f own = h

  done_without-Holds :
      (op : Option Operation) (m : Machine e.winsock) → k.P m → Holds (done_without e op m)
  unfolding done_without
  done_without-Holds none m h = h
  done_without-Holds (some (execution_operation f)) m h = k.call (ran f) m refl h
  done_without-Holds (some (read_operation bytes)) m h = h
  done_without-Holds (some connect_operation) m h = h
  done_without-Holds (some write_operation) m h = h
  done_without-Holds (some accept_operation) m h = h

  abbrev pub FinishesAll : Completion → Machine e.winsock → Type 0
  FinishesAll c m =
      (a : ℕ) (op : Operation) → c.key ≡ some a → c.overlapped ≡ some op → Finishes a op m

  process-Holds :
      (key : Option ℕ) (op : Option Operation) (m : Machine e.winsock)
      → k.P m
      → ((a : ℕ) (o : Operation) → key ≡ some a → op ≡ some o → Finishes a o m)
      → Holds (process e key op m)
  unfolding process
  process-Holds none op m h f = done_without-Holds op m h
  process-Holds (some a) none m h f = h
  process-Holds (some a) (some op) m h f =
      on_socket-Holds (m.sockets a) _ m h (λ s own. done_on-Holds a op s m h (f a op refl refl) own)

  pub handle-Holds :
      (c : Completion) (m : Machine e.winsock) → k.P m → FinishesAll c m → Holds (handle e c m)
  unfolding handle
  handle-Holds c m h f =
      if_cases Holds c.success
        (λ _.
          continue-Holds (process e c.key c.overlapped m) _ (process-Holds c.key c.overlapped m h f)
            (λ _ m' h'. h'))
        (λ _. unsuccessful-Holds c.key c.overlapped m h)

more_inv :
    (e : Env) (P : Machine e.winsock → Type 0) (fuel : ℕ) (x : Result Bool × Machine e.winsock)
    → ((m : Machine e.winsock) → P m → P (loop e fuel m).1)
    → P x.1
    → P (continue x (λ more m'. if more then loop e fuel m' else (ok tt, m'))).1
more_inv e P fuel (ok true, m) rest h = rest m h
more_inv e P fuel (ok false, m) rest h = h
more_inv e P fuel (throw err, m) rest h = h
more_inv e P fuel (out_of_fuel, m) rest h = h

-- A property that a completion keeps is kept by the loop, however it ends.
pub loop_inv :
    (e : Env) (P : Machine e.winsock → Type 0)
    → ((m : Machine e.winsock)
        → P m
        → P
            (handle e
              (e.get_completion m.kernel).0
              (with_kernel e (e.get_completion m.kernel).1 m)).1)
    → (fuel : ℕ) (m : Machine e.winsock) → P m
    → P (loop e fuel m).1
unfolding loop
loop_inv e P step zero m h = h
loop_inv e P step (suc fuel) m h =
    let x =
      handle e (e.get_completion m.kernel).0 (with_kernel e (e.get_completion m.kernel).1 m) in
    if_cases (λ (r : Result (Unit {0}) × Machine e.winsock). P r.1) m.run
      (λ _. more_inv e P fuel x (loop_inv e P step fuel) (step m h)) (λ _. h)
