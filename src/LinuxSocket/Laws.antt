-- ===== src/LinuxSocket/Laws.antt =====
-- What `LinuxSocket` relies on: documented behaviour of the kernel on one descriptor, and that the
-- application's handler of a failed write writes nothing.
use acpp_network.Prelude.{ℕ, ◌≤◌, ◌≡◌, true, List, ◌++◌, ◌≢◌, ◌<◌, Option, none, some, length, take}
use acpp_network.Posix.{Fd, Linux, CtlMode, ctl_add, ctl_mod, EpollEvent}
use acpp_network.SocketTypes.{Hint}
use acpp_network.LinuxSocket.{Env, error, SocketBasePimpl}

-- send(2): a count of at most the length, positive unless the length is 0, and that prefix is sent;
-- or nothing is sent.
abbrev pub Sends : {K : Type 0} → (K → List ℕ) → List ℕ → K → Option ℕ × K → Type 0
Sends out bytes k (some n, k') =
    (n ≤ length bytes) × (0 < length bytes → 0 < n) × (out k' ≡ out k ++ take n bytes)
Sends out bytes k (none, k') = out k' ≡ out k

-- `EPOLL_CTL_ADD` wants a descriptor that is not registered, `EPOLL_CTL_MOD` one that is.
abbrev pub Fits : CtlMode → Option EpollEvent → Type 0
Fits ctl_add o = o ≡ none
Fits ctl_mod o = o ≢ none

-- `out` is what has been sent on `fd`, and `registered` is its entry in the epoll set.
pub record WriteLaws (l : Linux) (epollfd fd : Fd) : Type 0 where
  pub out : l.Kernel → List ℕ
  pub registered : l.Kernel → Option EpollEvent
  pub send_Sends : (bytes : List ℕ) (k : l.Kernel) → Sends out bytes k (l.send fd bytes k)
  pub send_registered :
      (bytes : List ℕ) (k : l.Kernel) → registered (l.send fd bytes k).1 ≡ registered k
  pub ctl_out :
      (mode : CtlMode) (ev : EpollEvent) (k : l.Kernel)
      → out (l.epoll_ctl epollfd mode fd ev k).1 ≡ out k
  -- epoll_ctl(2) with memory and watches to spare.
  pub ctl_ok :
      (mode : CtlMode) (ev : EpollEvent) (k : l.Kernel)
      → Fits mode (registered k)
      → (l.epoll_ctl epollfd mode fd ev k).0 ≡ true
  pub ctl_registered :
      (mode : CtlMode) (ev : EpollEvent) (k : l.Kernel)
      → Fits mode (registered k)
      → registered (l.epoll_ctl epollfd mode fd ev k).1 ≡ some ev

-- A handler of errors that writes nothing on the descriptor.
abbrev pub IsQuiet : (e : Env) → (e.Kernel → List ℕ) → Type 0
IsQuiet e out =
    (n : ℕ) (h : Hint) (s : SocketBasePimpl) (k : e.Kernel) → out (e.app (error n h) s k).1 ≡ out k
