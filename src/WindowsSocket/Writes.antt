-- ===== src/WindowsSocket/Writes.antt =====
-- The one write operation of a Windows socket: its buffer is not given away twice.
use acpp_network.Prelude.{
  ℕ, suc, ◌≤◌, ◌<◌, ◌≡◌, ◌≢◌, refl, sym, ap, ◌∙◌, subst, ◌⊎◌, inl, inr, true, false, List, Option,
  none, some, ok, arith, ◌==◌, if_cases, if◌then◌else◌, ==→eq, ==→ne, length, take, min, Bool-cases,
}
use acpp_network.Posix.{Fd}
use acpp_network.WindowsSocket.{
  Env, Machine, SocketBasePimpl, Call, Operation, write_operation, accept_operation,
  connect_operation, read_operation, execution_operation, put, operation_buffer, Store,
}
use acpp_network.WindowsSocket.Operations.{
  with_kernel, with_socket, on_socket, overlapped, start_read, internal_write, write_on, write,
}
use acpp_network.WindowsSocket.Port.{invoke, loop, accept_done, hand_over}
use acpp_network.WindowsSocket.Port.Invariants.{
  Kept, continue-Holds, on_socket-Holds, overlapped-Holds, start_read-Holds, handle-Holds, Finishes,
  loop_inv,
}

-- `outstanding` counts the sends of a key that the system has taken and not completed.
pub record SendLaws (e : Env) : Type 0 where
  pub outstanding : e.Kernel → ℕ → ℕ
  pub send_one :
      (fd : Fd) (a : ℕ) (bytes : List ℕ) (k : e.Kernel)
      → outstanding (e.wsa_send fd a bytes k).1 a ≤ suc (outstanding k a)
  pub send_other :
      (fd : Fd) (a b : ℕ) (bytes : List ℕ) (k : e.Kernel)
      → a ≢ b
      → outstanding (e.wsa_send fd a bytes k).1 b ≡ outstanding k b
  pub recv_same :
      (fd : Fd) (a n b : ℕ) (k : e.Kernel) → outstanding (e.wsa_recv fd a n k).1 b ≡ outstanding k b
  pub completion_le :
      (k : e.Kernel) (b : ℕ) → outstanding (e.get_completion k).1 b ≤ outstanding k b
  -- A send that completes was outstanding.
  pub completion_write :
      (k : e.Kernel) (a : ℕ)
      → (e.get_completion k).0.key ≡ some a
      → (e.get_completion k).0.overlapped ≡ some write_operation
      → suc (outstanding (e.get_completion k).1 a) ≡ outstanding k a

put-cases :
    (a : ℕ) (s : SocketBasePimpl) (st : Store) (b : ℕ) (t : SocketBasePimpl)
    → put a (some s) st b ≡ some t
    → ((a ≡ b) × (s ≡ t)) ⊎ ((a ≢ b) × (st b ≡ some t))
put-cases a s st b t =
    if_cases (λ x. x ≡ some t → ((a ≡ b) × (s ≡ t)) ⊎ ((a ≢ b) × (st b ≡ some t))) (a == b)
      (λ same h. inl (==→eq a b same, ground arith)) (λ other h. inr (==→ne a b other, h))

abbrev pub in_use_count : SocketBasePimpl → ℕ
in_use_count s = if s.write_in_use then 1 else 0

in_use_le : (s : SocketBasePimpl) → in_use_count s ≤ 1
in_use_le s = if_cases (λ n. n ≤ 1) s.write_in_use (λ _. omega arith) (λ _. omega arith)

module _ (e : Env) (law : SendLaws e) where
  -- No socket has more sends outstanding than its operation says.
  abbrev pub IsSerial : Machine e.winsock → Type 0
  IsSerial m =
      (a : ℕ) (s : SocketBasePimpl)
      → m.sockets a ≡ some s
      → law.outstanding m.kernel a ≤ in_use_count s

  -- A socket is changed and the kernel moves on.
  changed-IsSerial :
      (a : ℕ) (s : SocketBasePimpl) (k : e.Kernel) (m : Machine e.winsock)
      → IsSerial m
      → law.outstanding k a ≤ in_use_count s
      → ((b : ℕ) → a ≢ b → law.outstanding k b ≡ law.outstanding m.kernel b)
      → IsSerial (with_kernel e k (with_socket e a s m))
  changed-IsSerial a s k m v own others b t h = elim (put-cases a s m.sockets b t h) [
    | inl x ↦
        subst (λ c. law.outstanding k c ≤ in_use_count t) x.0
          (subst (λ r. law.outstanding k a ≤ in_use_count r) x.1 own)
    | inr x ↦ subst (λ n. n ≤ in_use_count t) (sym (others b x.0)) (v b t x.1)
  ]

-- A callback keeps the operations serial, as `write` does.
abbrev pub AppIsSerial : (e : Env) → SendLaws e → Type 0
AppIsSerial e law =
    (c : Call) (m : Machine e.winsock) → IsSerial e law m → IsSerial e law (invoke e c m)

module _ (e : Env) (law : SendLaws e) (app : AppIsSerial e law) where
  abbrev serial : Kept e
  serial = record {
    P = IsSerial e law;
    recv = λ fd a m v b s h.
        subst (λ n. n ≤ in_use_count s) (sym (law.recv_same fd a operation_buffer b m.kernel))
          (v b s h);
    call = λ c m _ v. app c m v;
  }

  internal_write-IsSerial :
      (a : ℕ) (s : SocketBasePimpl) (bytes : List ℕ) (m : Machine e.winsock)
      → IsSerial e law m
      → m.sockets a ≡ some s
      → s.write_in_use ≡ false
      → IsSerial e law (internal_write e a s bytes m).1
  unfolding internal_write
  internal_write-IsSerial a s bytes m v own idle =
      let l = min operation_buffer (length bytes) in
      let s' : SocketBasePimpl = record s { write_in_use = true; write_buffer = take l bytes } in
      let x = e.wsa_send s.fd_ a (take l bytes) m.kernel in
      let none_out : law.outstanding m.kernel a ≤ 0 =
        subst (λ b. law.outstanding m.kernel a ≤ (if b then 1 else 0)) idle (v a s own) in
      let one_out : law.outstanding x.1 a ≤ 1 =
        omega (arith, law.send_one s.fd_ a (take l bytes) m.kernel) in
      continue-Holds e serial (overlapped e x (with_socket e a s' m)) _
        (overlapped-Holds e serial x.0 x.1 (with_socket e a s' m) (
          changed-IsSerial e law a s' x.1 m v one_out
            (λ b ne. law.send_other s.fd_ a b (take l bytes) m.kernel ne)))
        (λ _ m' h. h)

  -- The buffer of a write operation is given to the system at most once at a time: a write keeps every
  -- socket serial, if the callbacks do.
  pub write-IsSerial :
      (a : ℕ) (bytes : List ℕ) (m : Machine e.winsock)
      → IsSerial e law m
      → IsSerial e law (write e a bytes m).1
  unfolding write write_on
  write-IsSerial a bytes m v = on_socket-Holds e serial (m.sockets a) _ m v (λ s own.
      elim (Bool-cases s.write_in_use) [
        | inl busy ↦ rw busy v
        | inr idle ↦
            subst (λ b. IsSerial e law ((if b then (ok 0, m) else internal_write e a s bytes m)).1)
              (sym idle) (internal_write-IsSerial a s bytes m v own idle)
      ])

  write_done-IsSerial :
      (a : ℕ) (s : SocketBasePimpl) (m : Machine e.winsock)
      → IsSerial e law m
      → law.outstanding m.kernel a ≡ 0
      → IsSerial e law (with_socket e a (record s { write_in_use = false }) m)
  write_done-IsSerial a s m v z =
      changed-IsSerial e law a (record s { write_in_use = false }) m.kernel m v (omega arith)
        (λ b ne. refl)

  accept_done-IsSerial :
      (a : ℕ) (new : Option ℕ) (m : Machine e.winsock)
      → IsSerial e law m
      → IsSerial e law (accept_done e a new m).1
  unfolding accept_done hand_over
  accept_done-IsSerial a none m v = v
  accept_done-IsSerial a (some b) m v =
      continue-Holds e serial (start_read e b m) _ (start_read-Holds e serial b m v) (λ _ m' v'.
        on_socket-Holds e serial (m'.sockets a) _ m' v' (λ s own.
          if_cases (IsSerial e law) s.callbacks_.on_accepted
            (λ _. app _ _ (
              changed-IsSerial e law a (record s { new_socket = none }) m'.kernel m' v' (v' a s own)
                (λ c ne. refl)))
            (λ _. v')))

  -- After a completion the operation that it names is finished.
  finishes :
      (m : Machine e.winsock) (a : ℕ) (op : Operation)
      → (e.get_completion m.kernel).0.key ≡ some a
      → (e.get_completion m.kernel).0.overlapped ≡ some op
      → IsSerial e law m
      → IsSerial e law (with_kernel e (e.get_completion m.kernel).1 m)
      → Finishes e serial a op (with_kernel e (e.get_completion m.kernel).1 m)
  finishes m a write_operation key ov v v' = λ s own.
      write_done-IsSerial a s (with_kernel e (e.get_completion m.kernel).1 m) v' (
        let before = v a s own in
        let one = law.completion_write m.kernel a key ov in let few = in_use_le s in omega arith)
  finishes m a accept_operation key ov v v' = λ s own.
      accept_done-IsSerial a s.new_socket (with_kernel e (e.get_completion m.kernel).1 m) v'
  finishes m a connect_operation key ov v v' = tt
  finishes m a (read_operation bytes) key ov v v' = tt
  finishes m a (execution_operation f) key ov v v' = tt

  -- The loop keeps every socket serial, with one send outstanding at most for its write operation and none
  -- while it is not in use, whatever completions it takes and however it ends, if the callbacks do.
  pub loop-IsSerial :
      (fuel : ℕ) (m : Machine e.winsock) → IsSerial e law m → IsSerial e law (loop e fuel m).1
  loop-IsSerial = loop_inv e (IsSerial e law) (λ m v.
      let m' = with_kernel e (e.get_completion m.kernel).1 m in
      let v' : IsSerial e law m' =
        λ b s h. (let c = law.completion_le m.kernel b in let w = v b s h in omega arith) in
      handle-Holds e serial (e.get_completion m.kernel).0 m' v'
        (λ a op key ov. finishes m a op key ov v v'))

-- A write changes nothing while the buffer of the socket is with the system, if the socket is serial.
pub write-busy :
    (e : Env) (law : SendLaws e) (a : ℕ) (s : SocketBasePimpl) (bytes : List ℕ)
    (m : Machine e.winsock)
    → IsSerial e law m
    → m.sockets a ≡ some s
    → 0 < law.outstanding m.kernel a
    → write e a bytes m ≡ (ok 0, m)
unfolding write write_on
write-busy e law a s bytes m v own out =
    let busy : s.write_in_use ≡ true = elim (Bool-cases s.write_in_use) [
      | inl b ↦ b
      | inr idle ↦ absurd (
          let w = subst (λ b. law.outstanding m.kernel a ≤ (if b then 1 else 0)) idle (v a s own) in
          omega arith)
    ] in
    ap (λ o. on_socket e o (write_on e a bytes) m) own
    ∙ ap (λ b. if b then (ok 0, m) else internal_write e a s bytes m) busy
