-- ===== src/WindowsSocket/Accepts.antt =====
-- Connections on a Windows socket: the loop posts no AcceptEx, so what was posted by `listen` is all that
-- is ever accepted.
use acpp_network.Prelude.{
  ℕ, suc, ◌+◌, ◌-◌, ◌≤◌, ◌≡◌, refl, sym, subst, false, List, [], ◌∷◌, ◌++◌, Option, none, some,
  arith, ==→eq, continue_inv, ◌==◌, if_cases, if◌then◌else◌,
}
use mathlib.Core.Bool.{false≢true}
use acpp_network.Posix.{Fd}
use acpp_network.WindowsSocket.{
  Env, Machine, Call, connected, disconnected, sent, received, accepted, error, ran, Operation,
  write_operation, accept_operation, connect_operation, read_operation, execution_operation,
  operation_buffer,
}
use acpp_network.WindowsSocket.Operations.{with_kernel, with_socket, start_read}
use acpp_network.WindowsSocket.Port.{invoke, loop, accept_done, hand_over}
use acpp_network.WindowsSocket.Port.Invariants.{
  Kept, is_accepted, on_socket-Holds, start_read-Holds, handle-Holds, Finishes, loop_inv,
}

-- The calls of `on_accepted` for the socket of the key `a`.
abbrev pub accepts_one : ℕ → Call → ℕ
accepts_one a (accepted b c) = if a == b then 1 else 0
accepts_one a (connected b) = 0
accepts_one a (disconnected b) = 0
accepts_one a (sent b) = 0
accepts_one a (received b bytes) = 0
accepts_one a (error b err) = 0
accepts_one a (ran f) = 0

abbrev pub accepts : ℕ → List Call → ℕ
accepts a [] = 0
accepts a (c ∷ cs) = accepts_one a c + accepts a cs

accepts-append :
    (a : ℕ) (cs : List Call) (c : Call) → accepts a (cs ++ c ∷ []) ≡ accepts a cs + accepts_one a c
accepts-append a [] c = omega arith
accepts-append a (d ∷ cs) c = omega (arith, accepts-append a cs c)

accepts_one-le : (a : ℕ) (c : Call) → accepts_one a c ≤ 1
accepts_one-le a (accepted b c) =
    if_cases (λ n. n ≤ 1) (a == b) (λ _. omega arith) (λ _. omega arith)
accepts_one-le a (connected b) = omega arith
accepts_one-le a (disconnected b) = omega arith
accepts_one-le a (sent b) = omega arith
accepts_one-le a (received b bytes) = omega arith
accepts_one-le a (error b err) = omega arith
accepts_one-le a (ran f) = omega arith

no_accept : (a : ℕ) (c : Call) → is_accepted c ≡ false → accepts_one a c ≡ 0
no_accept a (accepted b c) h = absurd (false≢true (sym h))
no_accept a (connected b) h = refl
no_accept a (disconnected b) h = refl
no_accept a (sent b) h = refl
no_accept a (received b bytes) h = refl
no_accept a (error b err) h = refl
no_accept a (ran f) h = refl

-- `pending` counts the AcceptEx calls of a key that have not completed.
pub record AcceptLaws (e : Env) : Type 0 where
  pub pending : e.Kernel → ℕ → ℕ
  pub recv_same :
      (fd : Fd) (a n b : ℕ) (k : e.Kernel) → pending (e.wsa_recv fd a n k).1 b ≡ pending k b
  pub completion_le : (k : e.Kernel) (b : ℕ) → pending (e.get_completion k).1 b ≤ pending k b
  pub completion_accept :
      (k : e.Kernel) (a : ℕ)
      → (e.get_completion k).0.key ≡ some a
      → (e.get_completion k).0.overlapped ≡ some accept_operation
      → suc (pending (e.get_completion k).1 a) ≡ pending k a

module _ (e : Env) (law : AcceptLaws e) (a : ℕ) where
  -- The connections that have been handed over, and those that can come.
  abbrev pub total : Machine e.winsock → ℕ
  total m = accepts a m.calls + law.pending m.kernel a

-- The application does not call `listen` in a callback.
abbrev pub NoListen : (e : Env) → AcceptLaws e → ℕ → Type 0
NoListen e law a = (c : Call) (m : Machine e.winsock) → total e law a (e.app c m) ≤ total e law a m

module _ (e : Env) (law : AcceptLaws e) (a : ℕ) (app : NoListen e law a) where
  invoke-total :
      (c : Call) (m : Machine e.winsock)
      → total e law a (invoke e c m) ≤ total e law a m + accepts_one a c
  unfolding invoke
  invoke-total c m =
      omega (arith, app c (record m { calls = m.calls ++ c ∷ [] }), accepts-append a m.calls c)

  abbrev bounded : ℕ → Kept e
  bounded n = record {
    P = λ m. total e law a m ≤ n;
    recv = λ fd b m h. (let s = law.recv_same fd b operation_buffer a m.kernel in omega arith);
    call = λ c m not_accept h.
        (let i = invoke-total c m in let z = no_accept a c not_accept in omega arith);
  }

  -- A connection is handed over: it was counted as pending.
  accept_done-total :
      (b : ℕ) (new : Option ℕ) (n : ℕ) (m : Machine e.winsock)
      → total e law a m + (if a == b then 1 else 0) ≤ n
      → total e law a (accept_done e b new m).1 ≤ n
  unfolding accept_done hand_over
  accept_done-total b none n m h = omega arith
  accept_done-total b (some new) n m h =
      let j : ℕ = if a == b then 1 else 0 in
      continue_inv (λ m'. total e law a m' + j ≤ n) (λ m'. total e law a m' ≤ n)
        (start_read e new m) _
        (let r = start_read-Holds e (bounded (n - j)) new m (omega arith) in omega arith)
        (λ m' h'. omega arith)
        (λ _ m' h'. on_socket-Holds e (bounded n) (m'.sockets b) _ m' (omega arith) (λ s own.
          if_cases (λ t. total e law a t ≤ n) s.callbacks_.on_accepted
            (λ _.
              (let i =
                  invoke-total (accepted b new)
                    (with_socket e b (record s { new_socket = none }) m') in
                omega arith))
            (λ _. omega arith)))

  finishes :
      (n : ℕ) (m : Machine e.winsock) (b : ℕ) (op : Operation)
      → (e.get_completion m.kernel).0.key ≡ some b
      → (e.get_completion m.kernel).0.overlapped ≡ some op
      → total e law a m ≤ n
      → Finishes e (bounded n) b op (with_kernel e (e.get_completion m.kernel).1 m)
  finishes n m b write_operation key ov h =
      λ s own. (let c = law.completion_le m.kernel a in omega arith)
  finishes n m b accept_operation key ov h = λ s own.
      accept_done-total b s.new_socket n (with_kernel e (e.get_completion m.kernel).1 m) (
        if_cases (λ j. total e law a (with_kernel e (e.get_completion m.kernel).1 m) + j ≤ n)
          (a == b)
          (λ same.
            (let c = law.completion_accept m.kernel b key ov in
              let d =
                subst
                  (λ x. suc (law.pending (e.get_completion m.kernel).1 x) ≡ law.pending m.kernel x)
                  (sym (==→eq a b same)) c in
              omega arith))
          (λ other. (let c = law.completion_le m.kernel a in omega arith)))
  finishes n m b connect_operation key ov h = tt
  finishes n m b (read_operation bytes) key ov h = tt
  finishes n m b (execution_operation f) key ov h = tt

  -- The loop does not raise the number of connections that have been handed over on a socket together with
  -- the AcceptEx calls under way for it, if the callbacks do not.
  pub loop-total :
      (fuel : ℕ) (m : Machine e.winsock) → total e law a (loop e fuel m).1 ≤ total e law a m
  loop-total fuel m =
      loop_inv e (λ t. total e law a t ≤ total e law a m)
        (λ t h.
          handle-Holds e (bounded (total e law a m)) (e.get_completion t.kernel).0
            (with_kernel e (e.get_completion t.kernel).1 t)
            (let c = law.completion_le t.kernel a in omega arith)
            (λ b op key ov. finishes (total e law a m) t b op key ov h))
        fuel m (omega arith)
