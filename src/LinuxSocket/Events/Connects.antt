-- ===== src/LinuxSocket/Events/Connects.antt =====
-- `on_connected` is called once at most in the life of a socket.
use Prim.Native.Nat.{bit_and}
use acpp_network.Prelude.{
  refl, ℕ, ◌+◌, ◌≤◌, ◌≡◌, Bool, true, false, ◌||◌, List, [], ◌∷◌, ◌++◌, Option, none, some, arith,
  ◌==◌, if◌then◌else◌, if_cases, Result,
}
use acpp_network.Posix.{Fd, so_error, epollin, epollout}
use acpp_network.LinuxSocket.{
  Env, Machine, SocketBasePimpl, Call, connected, disconnected, received, sent, accepted, error,
  invoke, invoke_if, set_events,
}
use acpp_network.LinuxSocket.Registered.{set_events-SameBut}
use acpp_network.LinuxSocket.Events.{
  connect_done, writable, after_accept, accept_event, after_recv, read_event, read_size, or_zero,
  readable, handle_event,
}

abbrev pub is_connected : Call → ℕ
is_connected connected = 1
is_connected disconnected = 0
is_connected (received _) = 0
is_connected (sent _) = 0
is_connected (accepted _) = 0
is_connected (error _ _) = 0

-- How often `on_connected` has been called.
abbrev pub connects : List Call → ℕ
connects [] = 0
connects (c ∷ cs) = is_connected c + connects cs

connects-append :
    (cs : List Call) (c : Call) → connects (cs ++ c ∷ []) ≡ connects cs + is_connected c
connects-append [] c = omega arith
connects-append (x ∷ cs) c = omega (arith, connects-append cs c)

module _ (e : Env) where
  -- At most one call so far, and none while `connected_` is off.
  pub record ConnectsOnce (m : Machine e) : Type 0 where
    pub at_most : connects m.calls ≤ 1
    pub none_yet : m.sock.connected_ ≡ false → connects m.calls ≡ 0

  -- No callback turns `connected_` off.
  abbrev pub KeepsConnected : Type 0
  KeepsConnected =
      (c : Call) (s : SocketBasePimpl) (k : e.Kernel)
      → s.connected_ ≡ true
      → (e.app c s k).0.connected_ ≡ true

module _ (e : Env) (keeps : KeepsConnected e) where
  abbrev C : Machine e → Type 0
  C = ConnectsOnce e

  other-ConnectsOnce : (c : Call) (m : Machine e) → is_connected c ≡ 0 → C m → C (invoke e c m)
  unfolding invoke
  other-ConnectsOnce c m h v = ground (arith, connects-append m.calls c, keeps c m.sock m.kernel)

  connected-ConnectsOnce :
      (m : Machine e) → m.sock.connected_ ≡ true → connects m.calls ≡ 0 → C (invoke e connected m)
  unfolding invoke
  connected-ConnectsOnce m on h =
      ground (arith, connects-append m.calls connected, keeps connected m.sock m.kernel)

  invoke_if-ConnectsOnce :
      (b : Bool) (c : Call) (m : Machine e) → is_connected c ≡ 0 → C m → C (invoke_if e b c m)
  invoke_if-ConnectsOnce true c m h v = other-ConnectsOnce c m h v
  invoke_if-ConnectsOnce false c m h v = v

  kernel-ConnectsOnce : (k : e.Kernel) (m : Machine e) → C m → C (record m { kernel = k })
  kernel-ConnectsOnce k m v = record { at_most = v.at_most; none_yet = v.none_yet }

  connect_done-ConnectsOnce :
      (m : Machine e) → m.sock.connected_ ≡ true → connects m.calls ≡ 0 → C (connect_done e m)
  unfolding connect_done
  connect_done-ConnectsOnce m on h =
      let (r, k) = e.getsockopt m.sock.fd_ so_error m.kernel in
      let m' : Machine e = record m { kernel = k } in
      let v : C m' = record { at_most = omega (arith, h); none_yet = λ off. h } in
      if_cases C (or_zero r == 0)
        (λ _.
          if_cases C m.sock.callbacks_.on_connected (λ _. connected-ConnectsOnce m' on h) (λ _. v))
        (λ _. invoke_if-ConnectsOnce _ _ _ refl v)

  writable-ConnectsOnce : (m : Machine e) → C m → C (writable e m)
  unfolding writable
  writable-ConnectsOnce m v =
      let m₁ = set_events e epollin m in
      let v₁ : C m₁ = ground (arith, set_events-SameBut e epollin m) in
      if_cases C m₁.sock.connected_
        (λ _.
          invoke_if-ConnectsOnce m₁.sock.callbacks_.on_sent (sent 0)
            (record m₁ { sock = record (m₁.sock) { write_enabled_ = true } }) refl
            (record { at_most = v₁.at_most; none_yet = v₁.none_yet }))
        (λ off. connect_done-ConnectsOnce _ refl (v₁.none_yet off))

  after_accept-ConnectsOnce : (x : Fd × e.Kernel) (m : Machine e) → C m → C (after_accept e x m)
  unfolding after_accept
  after_accept-ConnectsOnce (none, k) m v =
      invoke_if-ConnectsOnce _ _ _ refl (kernel-ConnectsOnce k m v)
  after_accept-ConnectsOnce (some f, k) m v =
      if_cases C m.sock.callbacks_.on_accepted
        (λ _. other-ConnectsOnce _ _ refl (kernel-ConnectsOnce _ m v))
        (λ _. kernel-ConnectsOnce k m v)

  after_recv-ConnectsOnce :
      (x : Option (List ℕ) × e.Kernel) (m : Machine e) → C m → C (after_recv e x m).1
  unfolding after_recv
  after_recv-ConnectsOnce (none, k) m v =
      invoke_if-ConnectsOnce _ _ _ refl (kernel-ConnectsOnce k m v)
  after_recv-ConnectsOnce (some [], k) m v =
      if_cases (λ (x : Result (Unit {0}) × Machine e). C x.1) m.sock.callbacks_.on_disconnected
        (λ _. other-ConnectsOnce _ _ refl (kernel-ConnectsOnce k m v))
        (λ _. kernel-ConnectsOnce k m v)
  after_recv-ConnectsOnce (some (b ∷ bs), k) m v =
      if_cases (λ (x : Result (Unit {0}) × Machine e). C x.1) m.sock.callbacks_.on_received
        (λ _. other-ConnectsOnce _ _ refl (kernel-ConnectsOnce k m v))
        (λ _. kernel-ConnectsOnce k m v)

  readable-ConnectsOnce : (m : Machine e) → C m → C (readable e m).1
  unfolding readable read_event accept_event
  readable-ConnectsOnce m v =
      let P = λ (x : Result (Unit {0}) × Machine e). C x.1 in
      if_cases P m.sock.listening_
        (λ _. after_accept-ConnectsOnce (e.accept m.sock.fd_ m.kernel) m v)
        (λ _.
          if_cases P (m.sock.callbacks_.on_received || m.sock.callbacks_.on_disconnected)
            (λ _. after_recv-ConnectsOnce (e.recv m.sock.fd_ read_size m.kernel) m v) (λ _. v))

  -- Whatever events are reported, and also where the handler throws, `on_connected` is called at
  -- most once in the life of a socket, and only once `connected_` is set, if the application leaves
  -- `connected_` set in its callbacks.
  pub handle_event-ConnectsOnce :
      (events : ℕ) (m : Machine e) → ConnectsOnce e m → ConnectsOnce e (handle_event e events m).1
  unfolding handle_event
  handle_event-ConnectsOnce events m v =
      let m' = if bit_and events epollout == 0 then m else writable e m in
      let v' : C m' =
        if_cases C (bit_and events epollout == 0) (λ _. v) (λ _. writable-ConnectsOnce m v) in
      if_cases (λ (x : Result (Unit {0}) × Machine e). C x.1) (bit_and events epollin == 0)
        (λ _. v') (λ _. readable-ConnectsOnce m' v')
