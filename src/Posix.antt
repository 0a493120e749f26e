-- ===== src/Posix.antt =====
-- The operating system as src/linux/socket_base.cpp and include/acpp-network/socket.inl call it: a
-- parameter of the model. A call takes the state of the kernel and gives the next one; `errno` is
-- read from that state. Where C returns -1, the result is `none` or `false`.
use acpp_network.Prelude.{ℕ, ◌^◌, Bool, List, Option, none}

-- A file descriptor; `none` is -1, the only negative one that the calls return.
abbrev pub Fd : Type 0
Fd = Option ℕ

abbrev pub invalid_fd : Fd
invalid_fd = none

-- The memory behind a `const sockaddr&`: the family, and the bytes that follow it.
pub record Sockaddr : Type 0 where
  pub sa_family : ℕ
  pub sa_data : List ℕ

abbrev pub sizeof_sockaddr : ℕ
sizeof_sockaddr = 16

-- Socket options at the level SOL_SOCKET.
pub data SockOpt : Type 0 where
  so_sndbuf so_reuseaddr so_reuseport so_error : SockOpt

pub record Posix : Type 1 where
  pub Kernel : Type 0
  pub errno : Kernel → ℕ
  pub socket : ℕ → ℕ → ℕ → Kernel → Fd × Kernel
  pub close : Fd → Kernel → Kernel
  pub fcntl_getfl : Fd → Kernel → ℕ × Kernel
  pub fcntl_setfl : Fd → ℕ → Kernel → Kernel
  pub getsockopt : Fd → SockOpt → Kernel → Option ℕ × Kernel
  pub setsockopt : Fd → SockOpt → ℕ → Kernel → Bool × Kernel
  -- The last number is the length of the address.
  pub bind : Fd → Sockaddr → ℕ → Kernel → Bool × Kernel
  pub connect : Fd → Sockaddr → ℕ → Kernel → Bool × Kernel
  pub listen : Fd → ℕ → Kernel → Bool × Kernel
  pub accept : Fd → Kernel → Fd × Kernel
  pub send : Fd → List ℕ → Kernel → Option ℕ × Kernel
  pub recv : Fd → ℕ → Kernel → Option (List ℕ) × Kernel
  pub sendto : Fd → List ℕ → Sockaddr → ℕ → Kernel → Option ℕ × Kernel
  -- The sender's address is cut to the given length.
  pub recvfrom : Fd → ℕ → ℕ → Kernel → Option (List ℕ × Sockaddr) × Kernel

pub data CtlMode : Type 0 where
  ctl_add ctl_mod : CtlMode

-- `data.ptr` is the address of the handler.
pub record EpollEvent : Type 0 where
  pub events : ℕ
  pub ptr : ℕ

abbrev pub epollin : ℕ
epollin = 1

abbrev pub epollout : ℕ
epollout = 4

abbrev pub epolloneshot : ℕ
epolloneshot = 2 ^ 30

pub record ITimerSpec : Type 0 where
  pub value_sec : ℕ
  pub value_nsec : ℕ
  pub interval_sec : ℕ
  pub interval_nsec : ℕ

pub record Linux : Type 1 where
  pub posix : Posix
  pub open posix use *
  pub epoll_create1 : Kernel → Fd × Kernel
  pub epoll_ctl : Fd → CtlMode → Fd → EpollEvent → Kernel → Bool × Kernel
  pub epoll_wait : Fd → ℕ → Kernel → Option (List EpollEvent) × Kernel
  pub eventfd : Kernel → Fd × Kernel
  -- A write of the eight bytes of a counter.
  pub write_u64 : Fd → ℕ → Kernel → Bool × Kernel
  pub timerfd_create : Kernel → Fd × Kernel
  pub timerfd_settime : Fd → ITimerSpec → Kernel → Bool × Kernel
