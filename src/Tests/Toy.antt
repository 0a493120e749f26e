-- ===== src/Tests/Toy.antt =====
-- A system with one connection, on descriptor 3, whose send buffer has room for a few bytes.
use acpp_network.Prelude.{
  ℕ, ◌-◌, ◌≡◌, refl, ◌≢◌, Bool, true, false, List, [], ◌∷◌, ◌++◌, Option, none, some, min, arith,
  ◌==◌, if◌then◌else◌, length, take, drop, is_empty, take-append-drop, append-nil, sym,
}
use acpp_network.Posix.{Fd, Posix, Linux, CtlMode, ctl_add, ctl_mod, EpollEvent}
use acpp_network.LinuxSocket.{Env, Call, Machine, invoke}
use acpp_network.SocketTypes.{SocketCallbacks}
use acpp_network.LinuxSocket.Laws.{WriteLaws, Sends, Fits, IsQuiet}
use acpp_network.LinuxSocket.Registered.{IsWakeful}
use acpp_network.LinuxSocket.Events.Wakeup.{EventLaws}
use acpp_network.LinuxSocket.Events.Input.{InputLaws, Recvs, IsReading}

pub record Kernel : Type 0 where
  pub err : ℕ
  pub room : ℕ
  pub gone : List ℕ
  pub arrived : List ℕ
  pub entry : Option EpollEvent
  pub closed : List ℕ

abbrev pub is_three : Fd → Bool
is_three none = false
is_three (some n) = n == 3

abbrev pub send : Fd → List ℕ → Kernel → Option ℕ × Kernel
send fd bytes k =
    if is_empty bytes then (some 0, k) else if k.room == 0 then (none, record k { err = 11 }) else (
      some (min k.room (length bytes)),
      record k {
        room = k.room - min k.room (length bytes);
        gone = k.gone ++ take (min k.room (length bytes)) bytes;
      },
    )

abbrev pub recv : Fd → ℕ → Kernel → Option (List ℕ) × Kernel
recv fd n k = (some (take n k.arrived), record k { arrived = drop n k.arrived })

abbrev add_entry : EpollEvent → Kernel → Option EpollEvent → Bool × Kernel
add_entry ev k none = (true, record k { entry = some ev })
add_entry ev k (some x) = (false, k)

abbrev change_entry : EpollEvent → Kernel → Option EpollEvent → Bool × Kernel
change_entry ev k none = (false, k)
change_entry ev k (some x) = (true, record k { entry = some ev })

abbrev ctl_three : CtlMode → EpollEvent → Kernel → Bool × Kernel
ctl_three ctl_add ev k = add_entry ev k k.entry
ctl_three ctl_mod ev k = change_entry ev k k.entry

abbrev pub epoll_ctl : Fd → CtlMode → Fd → EpollEvent → Kernel → Bool × Kernel
epoll_ctl ep mode fd ev k = if is_three fd then ctl_three mode ev k else (true, k)

abbrev pub toy_posix : Posix
toy_posix = record {
  Kernel = Kernel;
  errno = λ k. k.err;
  socket = λ _ _ _ k. (some 3, k);
  close = λ fd k. elim fd [ none ↦ k | some n ↦ record k { closed = n ∷ k.closed } ];
  fcntl_getfl = λ _ k. (0, k);
  fcntl_setfl = λ _ _ k. k;
  getsockopt = λ _ _ k. (some 0, k);
  setsockopt = λ _ _ _ k. (true, k);
  bind = λ _ _ _ k. (true, k);
  connect = λ _ _ _ k. (true, k);
  listen = λ _ _ k. (true, k);
  accept = λ _ k. (some 4, k);
  send = send;
  recv = recv;
  sendto = λ fd bytes _ _ k. send fd bytes k;
  recvfrom = λ _ _ _ k. (none, k);
}

abbrev pub toy : Linux
toy = record {
  posix = toy_posix;
  epoll_create1 = λ k. (some 9, k);
  epoll_ctl = epoll_ctl;
  epoll_wait = λ _ _ k. (some [], k);
  eventfd = λ k. (some 8, k);
  write_u64 = λ _ _ k. (true, k);
  timerfd_create = λ k. (some 7, k);
  timerfd_settime = λ _ _ k. (true, k);
}

-- An application whose callbacks do nothing.
abbrev pub env : Env
env = record { linux = toy; epollfd = some 9; alloc = λ _. 100; app = λ _ s k. (s, k) }

pub send_Sends :
    (bytes : List ℕ) (k : Kernel) → Sends (λ (x : Kernel). x.gone) bytes k (send (some 3) bytes k)
send_Sends [] k = (omega arith, (λ h. absurd (omega arith)), sym (append-nil k.gone))
send_Sends (b ∷ bs) k = ground arith

pub send_entry : (bytes : List ℕ) (k : Kernel) → (send (some 3) bytes k).1.entry ≡ k.entry
send_entry [] k = refl
send_entry (b ∷ bs) k = ground arith

pub ctl_gone :
    (mode : CtlMode) (ev : EpollEvent) (k : Kernel)
    → (epoll_ctl (some 9) mode (some 3) ev k).1.gone ≡ k.gone
ctl_gone ctl_add ev k = ground arith
ctl_gone ctl_mod ev k = ground arith

pub ctl_arrived :
    (mode : CtlMode) (ev : EpollEvent) (k : Kernel)
    → (epoll_ctl (some 9) mode (some 3) ev k).1.arrived ≡ k.arrived
ctl_arrived ctl_add ev k = ground arith
ctl_arrived ctl_mod ev k = ground arith

pub ctl_entry :
    (mode : CtlMode) (ev : EpollEvent) (k : Kernel)
    → Fits mode k.entry
    → ((epoll_ctl (some 9) mode (some 3) ev k).0 ≡ true)
      × ((epoll_ctl (some 9) mode (some 3) ev k).1.entry ≡ some ev)
ctl_entry ctl_add ev k h = ground arith
ctl_entry ctl_mod ev k h = ground arith

pub other_entry :
    (mode : CtlMode) (f : ℕ) (ev : EpollEvent) (k : Kernel)
    → ◌≢◌ {A = Fd} (some 3) (some f)
    → (epoll_ctl (some 9) mode (some f) ev k).1.entry ≡ k.entry
other_entry ctl_add f ev k h = ground arith
other_entry ctl_mod f ev k h = ground arith

abbrev pub laws : WriteLaws toy (some 9) (some 3)
laws = record {
  out = λ (k : Kernel). k.gone;
  registered = λ (k : Kernel). k.entry;
  send_Sends = send_Sends;
  send_registered = send_entry;
  ctl_out = ctl_gone;
  ctl_ok = λ mode ev k h. (ctl_entry mode ev k h).0;
  ctl_registered = λ mode ev k h. (ctl_entry mode ev k h).1;
}

pub quiet : IsQuiet env (λ (k : Kernel). k.gone)
quiet n h s k = refl

pub accept_fresh :
    (k : Kernel) (f : ℕ) → (toy_posix.accept (some 3) k).0 ≡ some f → ◌≢◌ {A = Fd} (some 3) (some f)
accept_fresh k f h p = ground arith

pub app_IsWakeful :
    (c : Call) (m : Machine env) → IsWakeful env laws m → IsWakeful env laws (invoke env c m)
unfolding invoke
app_IsWakeful c m v = record { own = v.own; synced = v.synced; armed = v.armed }

abbrev pub event_laws : EventLaws env (some 3) laws
event_laws = record {
  getsockopt_registered = λ o k. refl;
  recv_registered = λ n k. refl;
  accept_registered = λ k. refl;
  accept_fresh = accept_fresh;
  getfl_registered = λ f k. refl;
  setfl_registered = λ f n k. refl;
  other_registered = other_entry;
}

pub recv_Recvs : (n : ℕ) (k : Kernel) → Recvs (λ (x : Kernel). x.arrived) k (recv (some 3) n k)
recv_Recvs n k = sym (take-append-drop n k.arrived)

pub app_IsReading :
    (c : Call) (m : Machine env) → IsReading (some 3) m → IsReading (some 3) (invoke env c m)
unfolding invoke
app_IsReading c m v = record {
  own = v.own;
  hears = v.hears;
  sees_end = v.sees_end;
  plain = v.plain;
}

abbrev pub input_laws : InputLaws env (some 3)
input_laws = record {
  inp = λ (k : Kernel). k.arrived;
  recv_Recvs = recv_Recvs;
  ctl_inp = ctl_arrived;
  getsockopt_inp = λ o k. refl;
  app_inp = λ c s k. refl;
  app_IsReading = app_IsReading;
}

abbrev pub every_callback : SocketCallbacks
every_callback = record {
  on_connected = true;
  on_disconnected = true;
  on_received = true;
  on_sent = true;
  on_accepted = true;
  on_error = true;
}

-- The connected socket of descriptor 3, registered for reading, with room for two bytes.
abbrev pub machine : Machine env
machine = record {
  sock = record {
    this = 50;
    domain_ = 2;
    type_ = 1;
    protocol_ = 6;
    fd_ = some 3;
    callbacks_ = every_callback;
    connected_ = false;
    listening_ = false;
    write_enabled_ = true;
    events_set_ = true;
  };
  kernel = record {
    err = 0;
    room = 2;
    gone = [];
    arrived = 7 ∷ 8 ∷ 9 ∷ [];
    entry = some (record { events = 1; ptr = 50 });
    closed = [];
  };
  calls = [];
}
