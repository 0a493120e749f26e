-- ===== src/LinuxSocket/Registered.antt =====
-- `set_events` of a Linux socket and its entry in the epoll set: EPOLLOUT is asked for while writing is
-- off.
use Prim.Native.Nat.{bit_or}
use acpp_network.Prelude.{
  ℕ, ◌≡◌, refl, Bool, true, false, ◌||◌, List, Option, none, some, arith, if◌then◌else◌,
}
use acpp_network.Posix.{Fd, ctl_add, ctl_mod, EpollEvent, epollin, epollout}
use acpp_network.LinuxSocket.{Env, Machine, ask_writable, set_events, after_ctl}
use acpp_network.LinuxSocket.Laws.{WriteLaws, Fits}

abbrev pub is_some {ℓ} : {A : Type ℓ} → Option A → Bool
is_some none = false
is_some (some _) = true

module _ (e : Env) where
  pub after_ctl-kernel : (x : Bool × e.Kernel) (m : Machine e) → (after_ctl e x m).kernel ≡ x.1
  unfolding after_ctl
  after_ctl-kernel (true, k) m = refl
  after_ctl-kernel (false, k) m = refl

  pub after_ctl-sock :
      (x : Bool × e.Kernel) (m : Machine e)
      → (after_ctl e x m).sock ≡ record (m.sock) { events_set_ = x.0 || m.sock.events_set_ }
  unfolding after_ctl
  after_ctl-sock (true, k) m = refl
  after_ctl-sock (false, k) m = refl

  -- `set_events` changes nothing but the kernel and `events_set_`.
  abbrev pub SameBut : Machine e → Machine e → Type 0
  SameBut m m' =
      (m'.calls ≡ m.calls) × (m'.sock ≡ record (m.sock) { events_set_ = m'.sock.events_set_ })

  after_ctl-SameBut : (x : Bool × e.Kernel) (m : Machine e) → SameBut m (after_ctl e x m)
  unfolding after_ctl
  after_ctl-SameBut (true, k) m = (refl, refl)
  after_ctl-SameBut (false, k) m = (refl, refl)

  pub set_events-SameBut : (ev : ℕ) (m : Machine e) → SameBut m (set_events e ev m)
  unfolding set_events
  set_events-SameBut ev m = after_ctl-SameBut _ m

module _ (e : Env) {fd : Fd} (law : WriteLaws e.linux e.epollfd fd) where
  abbrev pub out : Machine e → List ℕ
  out m = law.out m.kernel

  -- The machine runs the socket of `fd`; `events_set_` tells whether it is registered; and while
  -- `write_enabled_` is off, its EPOLLOUT is asked for.
  pub record IsWakeful (m : Machine e) : Type 0 where
    pub own : m.sock.fd_ ≡ fd
    pub synced : m.sock.events_set_ ≡ is_some (law.registered m.kernel)
    pub armed :
        m.sock.write_enabled_ ≡ false
        → law.registered m.kernel
          ≡ some (record { events = bit_or epollin epollout; ptr = m.sock.this })

  pub set_events-out : (ev : ℕ) (m : Machine e) → m.sock.fd_ ≡ fd → out (set_events e ev m) ≡ out m
  unfolding set_events
  set_events-out ev m h = rw (h, set_events, out, after_ctl-kernel) (law.ctl_out _ _ m.kernel)

  Fits-mode :
      (b : Bool) (o : Option EpollEvent) → b ≡ is_some o → Fits (if b then ctl_mod else ctl_add) o
  Fits-mode true none h = cc
  Fits-mode true (some x) h = λ p. cc
  Fits-mode false none h = refl
  Fits-mode false (some x) h = cc

  -- After `set_events` on a wakeful socket its entry is as asked, whatever `write_enabled_` says.
  pub set_events-registered :
      (ev : ℕ) (m : Machine e)
      → m.sock.fd_ ≡ fd
      → m.sock.events_set_ ≡ is_some (law.registered m.kernel)
      → (law.registered (set_events e ev m).kernel
          ≡ some (record { events = ev; ptr = m.sock.this }))
        × ((set_events e ev m).sock ≡ record (m.sock) { events_set_ = true })
  unfolding set_events
  set_events-registered ev m own synced =
      let fits = Fits-mode m.sock.events_set_ (law.registered m.kernel) synced in
      (
        rw (own, set_events, after_ctl-kernel) (law.ctl_registered _ _ m.kernel fits),
        rw
            (
              own,
              set_events,
              after_ctl-sock,
              law.ctl_ok _ (record { events = ev; ptr = m.sock.this }) m.kernel fits,
            )
            refl,
      )

  pub ask_writable-IsWakeful :
      (m : Machine e)
      → m.sock.fd_ ≡ fd
      → m.sock.events_set_ ≡ is_some (law.registered m.kernel)
      → IsWakeful (ask_writable e m) × ((ask_writable e m).sock.write_enabled_ ≡ false)
  unfolding ask_writable
  ask_writable-IsWakeful m own synced = ground (
    arith,
    set_events-registered (bit_or epollin epollout)
        (record m { sock = record (m.sock) { write_enabled_ = false } }) own synced,
  )
