-- ===== src/MacSocket/Write.antt =====
-- The write of a macOS socket: it sends a prefix, and its chunks make no difference.
use acpp_network.Prelude.{
  ℕ, suc, ◌≡◌, refl, sym, ap, ◌∙◌, subst, Bool, true, false, List, ◌++◌, Option, none, some, arith,
  Ensures, Ensures-mono, continue-Ensures, length, take, append-nil, ◌==◌, if_cases,
}
use mathlib.Core.Bool.{false≢true}
use acpp_network.Posix.{Fd}
use acpp_network.SocketTypes.{Hint}
use acpp_network.SendLoop.{Stepped, Extended, send_loop-Extended}
use acpp_network.MacSocket.{
  Env, Kqueue, Change, write_oneshot, Machine, SocketBasePimpl, error, with_kernel, after_kevent,
  ask_write_event, send_failed, after_send, so_write_internal, so_write, invoke, eagain,
  write_chunk,
}
use acpp_network.Writer.{Writer, SendsPrefix, Sent}
use acpp_network.LinuxSocket.Laws.{Sends}

-- send(2) on one descriptor; kevent(2) with memory to spare, on a descriptor that is open.
pub record WriteLaws (l : Kqueue) (kq fd : Fd) : Type 0 where
  pub out : l.Kernel → List ℕ
  pub send_Sends : (bytes : List ℕ) (k : l.Kernel) → Sends out bytes k (l.send fd bytes k)
  pub kevent_out : (c : Change) (k : l.Kernel) → out (l.kevent kq c k).1 ≡ out k
  pub kevent_ok : (this : ℕ) (k : l.Kernel) → (l.kevent kq (write_oneshot fd this) k).0 ≡ true

-- A handler of errors that writes nothing on the descriptor.
abbrev pub IsQuiet : (e : Env) → (e.Kernel → List ℕ) → Type 0
IsQuiet e out =
    (n : ℕ) (h : Hint) (s : SocketBasePimpl) (k : e.Kernel) → out (e.app (error n h) s k).1 ≡ out k

module _ (e : Env) {fd : Fd} (law : WriteLaws e.mac e.kq fd) (quiet : IsQuiet e law.out) where
  abbrev out_of : Machine e → List ℕ
  out_of m = law.out m.kernel

  abbrev IsReady : Machine e → Type 0
  IsReady m = m.sock.fd_ ≡ fd

  -- A change that succeeds, and changes nothing that was sent.
  after_kevent-out :
      (x : Bool × e.Kernel) (m : Machine e)
      → x.0 ≡ true
      → law.out x.1 ≡ out_of m
      → Ensures (λ _ m'. out_of m' ≡ out_of m) (after_kevent e x m)
  unfolding after_kevent
  after_kevent-out (true, k) m done same = same
  after_kevent-out (false, k) m done same = absurd (false≢true done)

  ask_write_event-out :
      (m : Machine e) → IsReady m → Ensures (λ _ m'. out_of m' ≡ out_of m) (ask_write_event e m)
  unfolding ask_write_event
  ask_write_event-out m own =
      let x = e.kevent e.kq (write_oneshot m.sock.fd_ m.sock.this) m.kernel in
      after_kevent-out x m
        (subst (λ f. (e.kevent e.kq (write_oneshot f m.sock.this) m.kernel).0 ≡ true) (sym own)
          (law.kevent_ok m.sock.this m.kernel))
        (law.kevent_out (write_oneshot m.sock.fd_ m.sock.this) m.kernel)

  -- Nothing was sent, and 0 is the result.
  abbrev Nothing : Machine e → ℕ → Machine e → Type 0
  Nothing m n m' = (n ≡ 0) × (out_of m' ≡ out_of m)

  send_failed-out : (m : Machine e) → IsReady m → Ensures (Nothing m) (send_failed e m)
  unfolding send_failed invoke
  send_failed-out m own =
      if_cases (Ensures (Nothing m)) (e.errno m.kernel == eagain)
        (λ _.
          continue-Ensures (λ _ m'. out_of m' ≡ out_of m) (Nothing m) _ (ask_write_event e m)
            (ask_write_event-out m own) (λ _ m' h. (refl, h)))
        (λ _. (
          refl,
          if_cases (λ (r : Machine e). out_of r ≡ out_of m) m.sock.callbacks_.on_error
              (λ _. quiet _ _ _ _) (λ _. refl),
        ))

  abbrev Steps : List ℕ → Machine e → ℕ → Machine e → Type 0
  Steps = Stepped (so_write_internal e) write_chunk out_of IsReady

  after_send-Stepped :
      (x : Option ℕ × e.Kernel) (bytes : List ℕ) (m : Machine e)
      → IsReady m
      → Sends law.out bytes m.kernel x
      → Ensures (Steps bytes m) (after_send e x m)
  unfolding after_send
  after_send-Stepped (some n, k) bytes m own h = (h.0, h.2, λ _. own)
  after_send-Stepped (none, k) bytes m own h =
      Ensures-mono (Nothing (with_kernel e k m)) (Steps bytes m) (send_failed e (with_kernel e k m))
        (λ n m' z.
          let e' : n ≡ 0 = z.0 in
          (
            omega arith,
            z.1 ∙ h ∙ sym (append-nil _) ∙ ap (λ i. out_of m ++ take i bytes) (sym e'),
            λ p. absurd (omega arith),
          ))
        (send_failed-out (with_kernel e k m) own)

  so_write_internal-Stepped :
      (bytes : List ℕ) (m : Machine e)
      → IsReady m
      → Ensures (Steps bytes m) (so_write_internal e bytes m)
  unfolding so_write_internal
  so_write_internal-Stepped bytes m own =
      after_send-Stepped (e.send m.sock.fd_ bytes m.kernel) bytes m own (
        subst (λ f. Sends law.out bytes m.kernel (e.send f bytes m.kernel)) (sym own)
          (law.send_Sends bytes m.kernel))

  -- On the open descriptor of the laws, with a handler of errors that writes nothing, the macOS `so_write`
  -- returns, and has sent exactly the prefix whose length it returns.
  pub mac_so_write-Sent :
      (bytes : List ℕ) (m : Machine e)
      → m.sock.fd_ ≡ fd
      → Ensures (Sent (λ (x : Machine e). law.out x.kernel) bytes m) (so_write e bytes m)
  unfolding so_write
  mac_so_write-Sent bytes m own =
      Ensures-mono (Extended (so_write_internal e) write_chunk out_of IsReady bytes 0 m)
        (Sent out_of bytes m) (so_write e bytes m)
        (λ n m' (j, counted, within, sent).
          let e' : n ≡ j = omega (arith, counted) in rw e' (within, sent))
        (send_loop-Extended (so_write_internal e) write_chunk out_of IsReady
          so_write_internal-Stepped (suc (length bytes)) bytes 0 m (omega arith) own)

-- The socket as a writer, for those that write through it.
abbrev pub mac_writer : (e : Env) → Writer (Machine e)
mac_writer e = record { so_write = so_write e; write_enabled = λ m. true }

-- It keeps the contract of a writer while it runs the descriptor.
abbrev pub mac_writer-SendsPrefix :
    (e : Env) {fd : Fd} (law : WriteLaws e.mac e.kq fd)
    → IsQuiet e law.out
    → SendsPrefix (mac_writer e)
mac_writer-SendsPrefix e {fd} law quiet = record {
  out = λ m. law.out m.kernel;
  IsReady = λ m. m.sock.fd_ ≡ fd;
  so_write_Sent = mac_so_write-Sent e law quiet;
}
