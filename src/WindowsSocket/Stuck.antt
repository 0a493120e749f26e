-- ===== src/WindowsSocket/Stuck.antt =====
-- A failure of WSASend keeps the write operation of a Windows socket for ever.
use acpp_network.WindowsSocket.Port.{invoke, accept_done, hand_over, handle}
use acpp_network.WindowsSocket.Port.Invariants.{
  Kept, continue-Holds, on_socket-Holds, overlapped-Holds, start_read-Holds, handle-Holds, Finishes,
}
use acpp_network.Prelude.{
  ◌≢◌, refl, Bool, Option, none, [], ◌∷◌, ◌++◌, inl, inr, Bool-cases, ==→eq, if_cases, ℕ, ◌≡◌, sym,
  ap, ◌∙◌, subst, true, false, List, some, Result, ok, throw, socket_exception, arith, ◌==◌, ◌||◌,
  if◌then◌else◌, length, take, min, continue,
}
use acpp_network.WindowsSocket.{
  Call, accepted, Completion, Operation, connect_operation, write_operation, accept_operation,
  read_operation, execution_operation, Env, Machine, SocketBasePimpl, put, io_pending,
  operation_buffer, Store,
}
use acpp_network.WindowsSocket.Operations.{
  with_kernel, with_socket, on_socket, start_read, overlapped, internal_write, write_on, write,
}

put-same : (a : ℕ) (s : SocketBasePimpl) (st : Store) → put a (some s) st a ≡ some s
put-same a s st = let t : (a == a) ≡ true = ground arith in ap (λ b. if b then some s else st a) t

-- The state in which a write that fails leaves the machine.
abbrev failed_write :
    (e : Env) → ℕ → SocketBasePimpl → List ℕ → Machine e.winsock → Machine e.winsock
failed_write e a s bytes m =
    let l = min operation_buffer (length bytes) in
    with_kernel e (e.wsa_send s.fd_ a (take l bytes) m.kernel).1
      (with_socket e a (record s { write_in_use = true; write_buffer = take l bytes }) m)

write_failed :
    (e : Env) (a : ℕ) (s : SocketBasePimpl) (bytes : List ℕ) (m : Machine e.winsock)
    → m.sockets a ≡ some s
    → s.write_in_use ≡ false
    → let x = e.wsa_send s.fd_ a (take (min operation_buffer (length bytes)) bytes) m.kernel in
      (x.0 || (e.last_error x.1 == io_pending)) ≡ false
      → write e a bytes m
        ≡ (throw (socket_exception (e.last_error x.1)), failed_write e a s bytes m)
unfolding write write_on internal_write overlapped
write_failed e a s bytes m own idle failed =
    let x = e.wsa_send s.fd_ a (take (min operation_buffer (length bytes)) bytes) m.kernel in
    let t = failed_write e a s bytes m in
    let err : Result (Unit {0}) = throw (socket_exception (e.last_error x.1)) in
    ap (λ o. on_socket e o (write_on e a bytes) m) own
    ∙ ap (λ b. if b then (ok 0, m) else internal_write e a s bytes m) idle
    ∙ ap
        (λ b.
          continue (if b then (ok tt, t) else (err, t))
            (λ _ m'. (ok (min operation_buffer (length bytes)), m')))
        failed

-- What may come after: a write to any socket, or a completion that the loop handles.
pub data Event : Type 0 where
  writes : ℕ → List ℕ → Event
  handles : Completion → Event

pub after_all : (e : Env) → List Event → Machine e.winsock → Machine e.winsock
after_all e [] m = m
after_all e (writes b bytes ∷ evs) m = after_all e evs (write e b bytes m).1
after_all e (handles c ∷ evs) m = after_all e evs (handle e c m).1

-- No completion of a write of this socket: no WSASend of it is under way.
abbrev pub Unfinished : ℕ → List Event → Type 0
Unfinished a [] = Unit {0}
Unfinished a (writes b bytes ∷ evs) = Unfinished a evs
Unfinished a (handles c ∷ evs) =
    (c.key ≡ some a → c.overlapped ≢ some write_operation) × Unfinished a evs

abbrev pub IsStuck : (e : Env) → ℕ → Machine e.winsock → Type 0
IsStuck e a m = (s : SocketBasePimpl) × (m.sockets a ≡ some s) × (s.write_in_use ≡ true)

-- What the application does in a callback leaves the write operation of the socket in use.
abbrev pub AppLeaves : Env → ℕ → Type 0
AppLeaves e a = (c : Call) (m : Machine e.winsock) → IsStuck e a m → IsStuck e a (e.app c m)

abbrev in_use : Option SocketBasePimpl → Bool
in_use none = false
in_use (some s) = s.write_in_use

module _ (e : Env) (a : ℕ) (app : AppLeaves e a) where
  with_socket-IsStuck :
      (b : ℕ) (s : SocketBasePimpl) (m : Machine e.winsock)
      → (b ≡ a → s.write_in_use ≡ true)
      → IsStuck e a m
      → IsStuck e a (with_socket e b s m)
  with_socket-IsStuck b s m f h = elim (Bool-cases (b == a)) [
    | inl same ↦ (s, ap (λ x. if x then some s else m.sockets a) same, f (==→eq b a same))
    | inr other ↦ (h.0, ap (λ x. if x then some s else m.sockets a) other ∙ h.1, h.2)
  ]

  -- The socket that an operation finds at `b`.
  found :
      (b : ℕ) (s : SocketBasePimpl) (m : Machine e.winsock)
      → m.sockets b ≡ some s
      → IsStuck e a m
      → b ≡ a
      → s.write_in_use ≡ true
  found b s m own h same = ap in_use (sym own ∙ ap m.sockets same ∙ h.1) ∙ h.2

  invoke-IsStuck : (c : Call) (m : Machine e.winsock) → IsStuck e a m → IsStuck e a (invoke e c m)
  unfolding invoke
  invoke-IsStuck c m h = app c (record m { calls = m.calls ++ c ∷ [] }) h

  stuck : Kept e
  stuck = record { P = IsStuck e a; recv = λ fd b m h. h; call = λ c m _ h. invoke-IsStuck c m h }

  accept_done-IsStuck :
      (b : ℕ) (x : Option ℕ) (m : Machine e.winsock)
      → IsStuck e a m
      → IsStuck e a (accept_done e b x m).1
  unfolding stuck accept_done hand_over
  accept_done-IsStuck b none m h = h
  accept_done-IsStuck b (some n) m h =
      continue-Holds e stuck (start_read e n m) _ (start_read-Holds e stuck n m h) (λ _ m' h'.
        on_socket-Holds e stuck (m'.sockets b) (hand_over e b n) m' h' (λ s own.
          if_cases (IsStuck e a) s.callbacks_.on_accepted
            (λ set.
              invoke-IsStuck (accepted b n) _ (
                with_socket-IsStuck b (record s { new_socket = none }) m' (found b s m' own h') h'))
            (λ unset. h')))

  finishes :
      (b : ℕ) (op : Operation) (m : Machine e.winsock)
      → (b ≡ a → op ≢ write_operation)
      → IsStuck e a m
      → Finishes e stuck b op m
  unfolding stuck
  finishes b write_operation m ne h = λ s own.
      with_socket-IsStuck b (record s { write_in_use = false }) m (λ same. absurd (ne same refl)) h
  finishes b accept_operation m ne h = λ s own. accept_done-IsStuck b s.new_socket m h
  finishes b connect_operation m ne h = tt
  finishes b (read_operation bytes) m ne h = tt
  finishes b (execution_operation f) m ne h = tt

  handle-IsStuck :
      (c : Completion) (m : Machine e.winsock)
      → (c.key ≡ some a → c.overlapped ≢ some write_operation)
      → IsStuck e a m
      → IsStuck e a (handle e c m).1
  unfolding stuck
  handle-IsStuck c m ne h =
      handle-Holds e stuck c m h
        (λ b op key over. finishes b op m (λ same w. ne (key ∙ ap some same) (over ∙ ap some w)) h)

  write-IsStuck :
      (b : ℕ) (bytes : List ℕ) (m : Machine e.winsock)
      → IsStuck e a m
      → IsStuck e a (write e b bytes m).1
  unfolding stuck write write_on internal_write
  write-IsStuck b bytes m h =
      on_socket-Holds e stuck (m.sockets b) (write_on e b bytes) m h (λ s own.
        let l = min operation_buffer (length bytes) in
        let s' : SocketBasePimpl = record s { write_in_use = true; write_buffer = take l bytes } in
        let x = e.wsa_send s.fd_ b (take l bytes) m.kernel in
        let t = with_socket-IsStuck b s' m (λ _. refl) h in
        if_cases (λ (r : Result ℕ × Machine e.winsock). IsStuck e a r.1) s.write_in_use (λ busy. h)
          (λ idle.
            continue-Holds e stuck (overlapped e x (with_socket e b s' m)) _
              (overlapped-Holds e stuck x.0 x.1 (with_socket e b s' m) t) (λ _ m' h'. h')))

  after_all-IsStuck :
      (evs : List Event) (m : Machine e.winsock)
      → Unfinished a evs
      → IsStuck e a m
      → IsStuck e a (after_all e evs m)
  unfolding after_all
  after_all-IsStuck [] m u h = h
  after_all-IsStuck (writes b bytes ∷ evs) m u h =
      after_all-IsStuck evs (write e b bytes m).1 u (write-IsStuck b bytes m h)
  after_all-IsStuck (handles c ∷ evs) m u h =
      after_all-IsStuck evs (handle e c m).1 u.1 (handle-IsStuck c m u.0 h)

  stuck_write :
      (more : List ℕ) (t : Machine e.winsock) → IsStuck e a t → write e a more t ≡ (ok 0, t)
  unfolding write write_on
  stuck_write more t h =
      ap (λ o. on_socket e o (write_on e a more) t) h.1
      ∙ ap (λ b. if b then (ok 0, t) else internal_write e a h.0 more t) h.2

  -- A WSASend on an idle socket that fails, and not by a pending operation, throws its code. Then, whatever writes
  -- are made to any sockets and whatever completions the loop handles, but for one of a write of this socket, of
  -- which there is none under way, and where the application in its callbacks leaves the write operation as it
  -- is: every write to that socket returns 0 and changes nothing.
  pub write_stuck :
      (s : SocketBasePimpl) (bytes : List ℕ) (evs : List Event) (more : List ℕ)
      (m : Machine e.winsock)
      → m.sockets a ≡ some s
      → s.write_in_use ≡ false
      → Unfinished a evs
      → let x = e.wsa_send s.fd_ a (take (min operation_buffer (length bytes)) bytes) m.kernel in
        (x.0 || (e.last_error x.1 == io_pending)) ≡ false
        → let t = after_all e evs (write e a bytes m).1 in
          ((write e a bytes m).0 ≡ throw (socket_exception (e.last_error x.1)))
          × (write e a more t ≡ (ok 0, t))
  write_stuck s bytes evs more m own idle u failed =
      let w = write_failed e a s bytes m own idle failed in
      let t = failed_write e a s bytes m in
      let first : IsStuck e a (write e a bytes m).1 =
        subst (λ r. IsStuck e a r.1) (sym w) (_, put-same a _ m.sockets, refl) in
      (ap (λ r. r.0) w, stuck_write more _ (after_all-IsStuck evs _ u first))
