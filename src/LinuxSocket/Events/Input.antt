-- ===== src/LinuxSocket/Events/Input.antt =====
-- The reading side of a socket: what `on_received` gets is what arrived, in order, with nothing lost
-- between two events.
use Prim.Native.Nat.{bit_and}
use acpp_network.Prelude.{
  ℕ, ◌≡◌, refl, sym, ap, subst, ◌∙◌, Bool, true, false, ◌||◌, List, [], ◌∷◌, ◌++◌, append-nil,
  append_assoc, Option, none, some, arith, ◌==◌, if◌then◌else◌, if_cases, Ensures, Ensures-mono,
}
use mathlib.Core.Path.{ap₂}
use mathlib.Core.Bool.{false≢true}
use acpp_network.Posix.{Fd, SockOpt, so_error, CtlMode, EpollEvent, epollin, epollout}
use acpp_network.LinuxSocket.{
  Env, Machine, SocketBasePimpl, Call, connected, disconnected, received, sent, accepted, error,
  invoke, invoke_if, set_events,
}
use acpp_network.LinuxSocket.Registered.{set_events-SameBut, after_ctl-kernel}
use acpp_network.LinuxSocket.Events.{
  connect_done, writable, after_recv, read_event, read_size, or_zero, readable, handle_event,
}

abbrev pub bytes_of : Call → List ℕ
bytes_of connected = []
bytes_of disconnected = []
bytes_of (received bs) = bs
bytes_of (sent _) = []
bytes_of (accepted _) = []
bytes_of (error _ _) = []

-- All that `on_received` has been given.
abbrev pub payload : List Call → List ℕ
payload [] = []
payload (c ∷ cs) = bytes_of c ++ payload cs

payload-append : (cs : List Call) (c : Call) → payload (cs ++ c ∷ []) ≡ payload cs ++ bytes_of c
payload-append [] c = append-nil (bytes_of c)
payload-append (x ∷ cs) c =
    ap (◌++◌ (bytes_of x)) (payload-append cs c)
    ∙ sym (append_assoc (bytes_of x) (payload cs) (bytes_of c))

-- recv(2): bytes are taken from the front of what has arrived, or none are.
abbrev pub Recvs : {K : Type 0} → (K → List ℕ) → K → Option (List ℕ) × K → Type 0
Recvs inp k (some bs, k') = inp k ≡ bs ++ inp k'
Recvs inp k (none, k') = inp k' ≡ inp k

-- A socket that is read by the loop.
pub record IsReading {e : Env} (fd : Fd) (m : Machine e) : Type 0 where
  pub own : m.sock.fd_ ≡ fd
  pub hears : m.sock.callbacks_.on_received ≡ true
  pub sees_end : m.sock.callbacks_.on_disconnected ≡ true
  pub plain : m.sock.listening_ ≡ false

-- `inp` is what has arrived on `fd` and was not read. No other call reads it, the application neither;
-- and a callback leaves the socket reading.
pub record InputLaws (e : Env) (fd : Fd) : Type 0 where
  pub inp : e.Kernel → List ℕ
  pub recv_Recvs : (n : ℕ) (k : e.Kernel) → Recvs inp k (e.recv fd n k)
  pub ctl_inp :
      (mode : CtlMode) (ev : EpollEvent) (k : e.Kernel)
      → inp (e.epoll_ctl e.epollfd mode fd ev k).1 ≡ inp k
  pub getsockopt_inp : (o : SockOpt) (k : e.Kernel) → inp (e.getsockopt fd o k).1 ≡ inp k
  pub app_inp : (c : Call) (s : SocketBasePimpl) (k : e.Kernel) → inp (e.app c s k).1 ≡ inp k
  pub app_IsReading : (c : Call) (m : Machine e) → IsReading fd m → IsReading fd (invoke e c m)

module _ (e : Env) {fd : Fd} (law : InputLaws e fd) where
  -- What was delivered, and then what waits in the kernel.
  abbrev pub stream : Machine e → List ℕ
  stream m = payload m.calls ++ law.inp m.kernel

  abbrev Kept : Machine e → Machine e → Type 0
  Kept m m' = IsReading fd m' × (stream m' ≡ stream m)

  kernel-Kept :
      (k : e.Kernel) (m : Machine e)
      → IsReading fd m
      → law.inp k ≡ law.inp m.kernel
      → Kept m (record m { kernel = k })
  kernel-Kept k m v h = (
    record { own = v.own; hears = v.hears; sees_end = v.sees_end; plain = v.plain },
    ap (◌++◌ (payload m.calls)) h,
  )

  -- A callback after the bytes that it is given have left the kernel's queue.
  invoke-Kept :
      (c : Call) (m m' : Machine e)
      → IsReading fd m'
      → m'.calls ≡ m.calls
      → law.inp m.kernel ≡ bytes_of c ++ law.inp m'.kernel
      → Kept m (invoke e c m')
  unfolding invoke
  invoke-Kept c m m' v same h = (
    law.app_IsReading c m' v,
    ground (
      arith,
      payload-append m.calls c,
      law.app_inp c m'.sock m'.kernel,
      append_assoc (payload m.calls) (bytes_of c) (law.inp m'.kernel),
    ),
  )

  -- Nothing was called and nothing was read so far.
  abbrev Still : Machine e → Machine e → Type 0
  Still m m' = IsReading fd m' × (m'.calls ≡ m.calls) × (law.inp m'.kernel ≡ law.inp m.kernel)

  invoke_if-Kept :
      (b : Bool) (c : Call) (m m' : Machine e)
      → bytes_of c ≡ []
      → Still m m'
      → Kept m (invoke_if e b c m')
  invoke_if-Kept true c m m' quiet h = invoke-Kept c m m' h.0 h.1 (rw quiet (sym h.2))
  invoke_if-Kept false c m m' quiet h = (h.0, ap₂ ◌++◌ (ap payload h.1) h.2)

  after_recv-Kept :
      (x : Option (List ℕ) × e.Kernel) (m : Machine e)
      → IsReading fd m
      → Recvs law.inp m.kernel x
      → Ensures (λ _ m'. Kept m m') (after_recv e x m)
  unfolding after_recv
  after_recv-Kept (none, k) m v h =
      let v' = (kernel-Kept k m v h).0 in
      invoke_if-Kept m.sock.callbacks_.on_error _ m (record m { kernel = k }) refl (v', refl, h)
  after_recv-Kept (some [], k) m v h =
      if_cases (Ensures (λ _ m'. Kept m m')) m.sock.callbacks_.on_disconnected
        (λ _.
          invoke-Kept disconnected m (record m { kernel = k }) (kernel-Kept k m v (sym h)).0 refl h)
        (λ off. absurd (false≢true (sym off ∙ v.sees_end)))
  after_recv-Kept (some (b ∷ bs), k) m v h =
      if_cases (Ensures (λ _ m'. Kept m m')) m.sock.callbacks_.on_received
        (λ _.
          invoke-Kept (received (b ∷ bs)) m (record m { kernel = k })
            (record { own = v.own; hears = v.hears; sees_end = v.sees_end; plain = v.plain }) refl
            h)
        (λ off. absurd (false≢true (sym off ∙ v.hears)))

  readable-Kept : (m : Machine e) → IsReading fd m → Ensures (λ _ m'. Kept m m') (readable e m)
  unfolding readable read_event
  readable-Kept m v =
      if_cases (Ensures (λ _ m'. Kept m m')) m.sock.listening_
        (λ on. absurd (false≢true (sym v.plain ∙ on)))
        (λ _.
          if_cases (Ensures (λ _ m'. Kept m m'))
            (m.sock.callbacks_.on_received || m.sock.callbacks_.on_disconnected)
            (λ _. after_recv-Kept (e.recv m.sock.fd_ read_size m.kernel) m v (
              subst (λ f. Recvs law.inp m.kernel (e.recv f read_size m.kernel)) (sym v.own)
                (law.recv_Recvs read_size m.kernel)))
            (λ _. (v, refl)))

  connect_done-Kept : (m m' : Machine e) → Still m m' → Kept m (connect_done e m')
  unfolding connect_done
  connect_done-Kept m m' h =
      let (r, k) = e.getsockopt m'.sock.fd_ so_error m'.kernel in
      let same : law.inp k ≡ law.inp m'.kernel =
        subst (λ f. law.inp (e.getsockopt f so_error m'.kernel).1 ≡ law.inp m'.kernel) (sym h.0.own)
          (law.getsockopt_inp so_error m'.kernel) in
      let still : Still m (record m' { kernel = k }) =
        ((kernel-Kept k m' h.0 same).0, h.1, same ∙ h.2) in
      if_cases (Kept m) (or_zero r == 0)
        (λ _.
          invoke_if-Kept m'.sock.callbacks_.on_connected connected m (record m' { kernel = k }) refl
            still)
        (λ _. invoke_if-Kept m'.sock.callbacks_.on_error _ m (record m' { kernel = k }) refl still)

  set_events-Still : (ev : ℕ) (m : Machine e) → IsReading fd m → Still m (set_events e ev m)
  unfolding set_events
  set_events-Still ev m v =
      let p = set_events-SameBut e ev m in
      (ground (arith, p), p.0, rw (v.own, set_events, after_ctl-kernel) (law.ctl_inp _ _ m.kernel))

  writable-Kept : (m : Machine e) → IsReading fd m → Kept m (writable e m)
  unfolding writable
  writable-Kept m v =
      let m₁ = set_events e epollin m in
      let h = set_events-Still epollin m v in
      let v₁ = h.0 in
      let m₂ : Machine e = record m₁ { sock = record (m₁.sock) { write_enabled_ = true } } in
      let r : IsReading fd m₂ = record {
        own = v₁.own;
        hears = v₁.hears;
        sees_end = v₁.sees_end;
        plain = v₁.plain;
      } in
      if_cases (Kept m) m₁.sock.connected_
        (λ _. invoke_if-Kept m₁.sock.callbacks_.on_sent (sent 0) m m₂ refl (r, h.1, h.2))
        (λ _.
          connect_done-Kept m (record m₂ { sock = record (m₂.sock) { connected_ = true } })
            (
              record { own = v₁.own; hears = v₁.hears; sees_end = v₁.sees_end; plain = v₁.plain },
              h.1,
              h.2,
            ))

  -- The handler returns on a socket that is being read, which goes on being read, and what was
  -- delivered with what waits in the kernel is the same stream as before.
  pub handle_event-Kept :
      (events : ℕ) (m : Machine e)
      → IsReading fd m
      → Ensures (λ _ m'. IsReading fd m' × (stream m' ≡ stream m)) (handle_event e events m)
  unfolding handle_event
  handle_event-Kept events m v =
      let m' = if bit_and events epollout == 0 then m else writable e m in
      let h : Kept m m' =
        if_cases (Kept m) (bit_and events epollout == 0) (λ _. (v, refl))
          (λ _. writable-Kept m v) in
      if_cases (Ensures (λ _ m''. Kept m m'')) (bit_and events epollin == 0) (λ _. h)
        (λ _.
          Ensures-mono (λ _ m''. Kept m' m'') (λ _ m''. Kept m m'') (readable e m')
            (λ _ m'' p. (p.0, p.1 ∙ h.1)) (readable-Kept m' h.0))
