-- ===== src/LinuxSocket/Events/Wakeup.antt =====
-- The handler of events never forgets to ask for EPOLLOUT.
use Prim.Native.Nat.{bit_and}
use acpp_network.Prelude.{
  if◌then◌else◌, ℕ, ◌≡◌, refl, ap, subst, sym, ◌∙◌, ◌≢◌, Bool, true, false, ◌||◌, List, [], ◌∷◌,
  Option, none, some, ◌==◌, if_cases, Result,
}
use acpp_network.Posix.{Fd, SockOpt, so_error, CtlMode, EpollEvent, epollin, epollout}
use acpp_network.LinuxSocket.{
  Env, Machine, SocketBasePimpl, Call, invoke, invoke_if, set_events, of_fd,
}
use acpp_network.LinuxSocket.Laws.{WriteLaws}
use acpp_network.LinuxSocket.Registered.{
  IsWakeful, set_events-registered, after_ctl-kernel, is_some,
}
use acpp_network.LinuxSocket.Events.{
  connect_done, writable, new_socket, after_accept, or_zero, accept_event, after_recv, read_event,
  read_size, readable, handle_event,
}

-- The calls of the handler of events leave the entry of the descriptor alone: those on `fd`, and those
-- on the descriptor of a new connection, which is another one.
pub record EventLaws (e : Env) (fd : Fd) (law : WriteLaws e.linux e.epollfd fd) : Type 0 where
  pub getsockopt_registered :
      (o : SockOpt) (k : e.Kernel) → law.registered (e.getsockopt fd o k).1 ≡ law.registered k
  pub recv_registered : (n : ℕ) (k : e.Kernel) → law.registered (e.recv fd n k).1 ≡ law.registered k
  pub accept_registered : (k : e.Kernel) → law.registered (e.accept fd k).1 ≡ law.registered k
  pub accept_fresh : (k : e.Kernel) (f : ℕ) → (e.accept fd k).0 ≡ some f → fd ≢ some f
  pub getfl_registered :
      (f : Fd) (k : e.Kernel) → law.registered (e.fcntl_getfl f k).1 ≡ law.registered k
  pub setfl_registered :
      (f : Fd) (n : ℕ) (k : e.Kernel) → law.registered (e.fcntl_setfl f n k) ≡ law.registered k
  pub other_registered :
      (mode : CtlMode) (f : ℕ) (ev : EpollEvent) (k : e.Kernel)
      → fd ≢ some f
      → law.registered (e.epoll_ctl e.epollfd mode (some f) ev k).1 ≡ law.registered k

module _ (e : Env) {fd : Fd} (law : WriteLaws e.linux e.epollfd fd)
    (more : EventLaws e fd law) where
  abbrev W : Machine e → Type 0
  W = IsWakeful e law

  -- No callback undoes it.
  abbrev pub Keeps : Type 0
  Keeps = (c : Call) (m : Machine e) → W m → W (invoke e c m)

  invoke_if-IsWakeful : Keeps → (b : Bool) (c : Call) (m : Machine e) → W m → W (invoke_if e b c m)
  invoke_if-IsWakeful keeps true c m v = keeps c m v
  invoke_if-IsWakeful keeps false c m v = v

  kernel-IsWakeful :
      (k : e.Kernel) (m : Machine e)
      → law.registered k ≡ law.registered m.kernel
      → W m
      → W (record m { kernel = k })
  kernel-IsWakeful k m r v = record {
    own = v.own;
    synced = rw r v.synced;
    armed = λ off. r ∙ v.armed off;
  }

  connect_done-IsWakeful : Keeps → (m : Machine e) → W m → W (connect_done e m)
  unfolding connect_done
  connect_done-IsWakeful keeps m v =
      let (r, k) = e.getsockopt m.sock.fd_ so_error m.kernel in
      let v' : W (record m { kernel = k }) =
        kernel-IsWakeful k m
          (subst
            (λ f. law.registered (e.getsockopt f so_error m.kernel).1 ≡ law.registered m.kernel)
            (sym v.own) (more.getsockopt_registered so_error m.kernel))
          v in
      if_cases W (or_zero r == 0) (λ _. invoke_if-IsWakeful keeps _ _ _ v')
        (λ _. invoke_if-IsWakeful keeps _ _ _ v')

  writable-IsWakeful : Keeps → (m : Machine e) → W m → W (writable e m)
  unfolding writable
  writable-IsWakeful keeps m v =
      let p = set_events-registered e law epollin m v.own v.synced in
      let m₁ = set_events e epollin m in
      let v₂ : W (record m₁ { sock = record (m₁.sock) { write_enabled_ = true } }) = record {
        own = ap (λ (s : SocketBasePimpl). s.fd_) p.1 ∙ v.own;
        synced = ap (λ (s : SocketBasePimpl). s.events_set_) p.1 ∙ sym (ap is_some p.0);
        armed = λ off. cc;
      } in
      if_cases W m₁.sock.connected_ (λ _. invoke_if-IsWakeful keeps _ _ _ v₂)
        (λ _.
          connect_done-IsWakeful keeps _
            (record { own = v₂.own; synced = v₂.synced; armed = v₂.armed }))

  new_socket-registered :
      (f : ℕ) (m : Machine e)
      → fd ≢ some f
      → law.registered (new_socket e f m).kernel ≡ law.registered m.kernel
  unfolding new_socket set_events of_fd
  new_socket-registered f m h =
      let k = m.kernel in
      rw (set_events, after_ctl-kernel)
        (more.other_registered _ f _ _ h
          ∙ more.setfl_registered (some f) _ _
          ∙ more.getfl_registered (some f) k)

  after_accept-IsWakeful :
      Keeps
      → (x : Fd × e.Kernel) (m : Machine e) → W m
      → law.registered x.1 ≡ law.registered m.kernel
      → ((f : ℕ) → x.0 ≡ some f → fd ≢ some f)
      → W (after_accept e x m)
  unfolding after_accept
  after_accept-IsWakeful keeps (none, k) m v r h =
      invoke_if-IsWakeful keeps _ _ _ (kernel-IsWakeful k m r v)
  after_accept-IsWakeful keeps (some f, k) m v r h =
      if_cases W m.sock.callbacks_.on_accepted
        (λ _. keeps _ _ (
          kernel-IsWakeful _ m (new_socket-registered f (record m { kernel = k }) (h f refl) ∙ r)
            v))
        (λ _. kernel-IsWakeful k m r v)

  accept_event-IsWakeful : Keeps → (m : Machine e) → W m → W (accept_event e m)
  unfolding accept_event
  accept_event-IsWakeful keeps m v =
      after_accept-IsWakeful keeps (e.accept m.sock.fd_ m.kernel) m v
        (subst (λ f. law.registered (e.accept f m.kernel).1 ≡ law.registered m.kernel) (sym v.own)
          (more.accept_registered m.kernel))
        (subst (λ f. (g : ℕ) → (e.accept f m.kernel).0 ≡ some g → fd ≢ some g) (sym v.own)
          (more.accept_fresh m.kernel))

  after_recv-IsWakeful :
      Keeps
      → (x : Option (List ℕ) × e.Kernel) (m : Machine e) → W m
      → law.registered x.1 ≡ law.registered m.kernel
      → W (after_recv e x m).1
  unfolding after_recv
  after_recv-IsWakeful keeps (none, k) m v r =
      invoke_if-IsWakeful keeps _ _ _ (kernel-IsWakeful k m r v)
  after_recv-IsWakeful keeps (some [], k) m v r =
      if_cases (λ (x : Result (Unit {0}) × Machine e). W x.1) m.sock.callbacks_.on_disconnected
        (λ _. keeps _ _ (kernel-IsWakeful k m r v)) (λ _. kernel-IsWakeful k m r v)
  after_recv-IsWakeful keeps (some (b ∷ bs), k) m v r =
      if_cases (λ (x : Result (Unit {0}) × Machine e). W x.1) m.sock.callbacks_.on_received
        (λ _. keeps _ _ (kernel-IsWakeful k m r v)) (λ _. kernel-IsWakeful k m r v)

  readable-IsWakeful : Keeps → (m : Machine e) → W m → W (readable e m).1
  unfolding readable read_event
  readable-IsWakeful keeps m v =
      let P = λ (x : Result (Unit {0}) × Machine e). W x.1 in
      if_cases P m.sock.listening_ (λ _. accept_event-IsWakeful keeps m v)
        (λ _.
          if_cases P (m.sock.callbacks_.on_received || m.sock.callbacks_.on_disconnected)
            (λ _. after_recv-IsWakeful keeps (e.recv m.sock.fd_ read_size m.kernel) m v (
              subst (λ f. law.registered (e.recv f read_size m.kernel).1 ≡ law.registered m.kernel)
                (sym v.own) (more.recv_registered _ m.kernel)))
            (λ _. v))

  -- Whatever events are reported, and also where the handler throws, a wakeful socket is wakeful
  -- afterwards, if the application keeps it so in its callbacks.
  pub handle_event-IsWakeful :
      Keeps
      → (events : ℕ) (m : Machine e) → IsWakeful e law m
      → IsWakeful e law (handle_event e events m).1
  unfolding handle_event
  handle_event-IsWakeful keeps events m v =
      let m' = if bit_and events epollout == 0 then m else writable e m in
      let v' : W m' =
        if_cases W (bit_and events epollout == 0) (λ _. v) (λ _. writable-IsWakeful keeps m v) in
      if_cases (λ (x : Result (Unit {0}) × Machine e). W x.1) (bit_and events epollin == 0)
        (λ _. v') (λ _. readable-IsWakeful keeps m' v')
