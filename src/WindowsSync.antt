-- ===== src/WindowsSync.antt =====
-- src/windows/socket_base.cpp: the `sync` sockets, with all the objects in one store.
pub mod Leaks
use acpp_network.Prelude.{ℕ, Bool, List, [], ◌∷◌, ◌==◌, if◌then◌else◌}
use acpp_network.Posix.{Fd, invalid_fd, Sockaddr, sizeof_sockaddr}
use acpp_network.SyncSocket.{Objects, set, is_valid}

-- Winsock, and the `close` of the C runtime (`crt_close`), which has descriptors of its own. `none` is
-- INVALID_SOCKET, which as an `int` is the -1 of a socket that was moved from.
pub record System : Type 1 where
  pub Kernel : Type 0
  pub wsa_socket : ℕ → ℕ → ℕ → Kernel → Fd × Kernel
  pub wsa_connect : Fd → Sockaddr → ℕ → Kernel → Bool × Kernel
  pub shutdown : Fd → Kernel → Kernel
  pub closesocket : Fd → Kernel → Kernel
  pub crt_close : Fd → Kernel → Kernel

-- What an object may be made to do.
pub data Op : Type 0 where
  constructs closes : ℕ → Op
  adopts : ℕ → Fd → Op
  moves assigns : ℕ → ℕ → Op
  creates : ℕ → ℕ → ℕ → ℕ → Op
  connects : ℕ → Sockaddr → Op

module _ (w : System) where
  pub construct : ℕ → Objects w.Kernel → Objects w.Kernel
  construct a o = record o { fd_ = set a invalid_fd o.fd_ }

  -- The constructor from a descriptor.
  pub of_fd : ℕ → Fd → Objects w.Kernel → Objects w.Kernel
  of_fd a fd o = record o { fd_ = set a fd o.fd_ }

  pub move_construct : ℕ → ℕ → Objects w.Kernel → Objects w.Kernel
  move_construct a other o = record o { fd_ = set other invalid_fd (set a (o.fd_ other) o.fd_) }

  -- The old descriptor goes to the `close` of the C runtime.
  pub move_assign : ℕ → ℕ → Objects w.Kernel → Objects w.Kernel
  move_assign a other o = if a == other then o else (record {
    fd_ = set other invalid_fd (set a (o.fd_ other) o.fd_);
    kernel = w.crt_close (o.fd_ a) o.kernel;
  })

  -- The destructor does the same.
  pub close : ℕ → Objects w.Kernel → Objects w.Kernel
  close a o =
      if is_valid (o.fd_ a)
      then record {
        fd_ = set a invalid_fd o.fd_;
        kernel = w.closesocket (o.fd_ a) (w.shutdown (o.fd_ a) o.kernel);
      }
      else o

  pub create_impl : ℕ → ℕ → ℕ → ℕ → Objects w.Kernel → Objects w.Kernel
  create_impl a domain type protocol o =
      let o' = close a o in
      let (fd, k) = w.wsa_socket domain type protocol o'.kernel in
      record { fd_ = set a fd o'.fd_; kernel = k }

  pub connect : ℕ → Sockaddr → Objects w.Kernel → Bool × Objects w.Kernel
  connect a adr o =
      let (r, k) = w.wsa_connect (o.fd_ a) adr sizeof_sockaddr o.kernel in
      (r, record o { kernel = k })

  pub run : Op → Objects w.Kernel → Objects w.Kernel
  run (constructs a) o = construct a o
  run (closes a) o = close a o
  run (adopts a fd) o = of_fd a fd o
  run (moves a b) o = move_construct a b o
  run (assigns a b) o = move_assign a b o
  run (creates a d t r) o = create_impl a d t r o
  run (connects a adr) o = (connect a adr o).1

  pub run_all : List Op → Objects w.Kernel → Objects w.Kernel
  run_all [] o = o
  run_all (x ∷ xs) o = run_all xs (run x o)
