-- ===== src/MacSync.antt =====
-- src/macos/socket_base.cpp: the `sync` sockets, with all the objects in one store, and that they do what those of
-- Linux do.
use acpp_network.Prelude.{
  ℕ, ◌≡◌, refl, Bool, List, [], ◌∷◌, ◌==◌, if◌then◌else◌, ap, ◌∙◌, subst, sym,
}
use acpp_network.Posix.{Fd, invalid_fd, Posix, Sockaddr, sizeof_sockaddr}
use acpp_network.SyncSocket
use acpp_network.SyncSocket.Ownership
use acpp_network.SyncSocket.{Objects, set, is_valid, accept}
use acpp_network.SyncSocket.Ownership.{
  Descriptors, OwnedBy, AllFit, Op, adopts, constructs, closes, moves, assigns, accepts, creates,
  run_all-Owned,
}

module _ (p : Posix) where
  pub construct : ℕ → Objects p.Kernel → Objects p.Kernel
  construct a o = record o { fd_ = set a invalid_fd o.fd_ }

  -- The constructor from a descriptor.
  pub of_fd : ℕ → Fd → Objects p.Kernel → Objects p.Kernel
  of_fd a fd o = record o { fd_ = set a fd o.fd_ }

  pub move_construct : ℕ → ℕ → Objects p.Kernel → Objects p.Kernel
  move_construct a other o = record o { fd_ = set other invalid_fd (set a (o.fd_ other) o.fd_) }

  pub move_assign : ℕ → ℕ → Objects p.Kernel → Objects p.Kernel
  move_assign a other o = if a == other then o else (record {
    fd_ = set other invalid_fd (set a (o.fd_ other) o.fd_);
    kernel = p.close (o.fd_ a) o.kernel;
  })

  -- The destructor does the same.
  pub close : ℕ → Objects p.Kernel → Objects p.Kernel
  close a o =
      if is_valid (o.fd_ a)
      then record { fd_ = set a invalid_fd o.fd_; kernel = p.close (o.fd_ a) o.kernel }
      else o

  pub create_impl : ℕ → ℕ → ℕ → ℕ → Objects p.Kernel → Objects p.Kernel
  create_impl a domain type protocol o =
      let o' = close a o in
      let (fd, k) = p.socket domain type protocol o'.kernel in
      record { fd_ = set a fd o'.fd_; kernel = k }

  pub connect : ℕ → Sockaddr → Objects p.Kernel → Bool × Objects p.Kernel
  connect a adr o =
      let (r, k) = p.connect (o.fd_ a) adr sizeof_sockaddr o.kernel in (r, record o { kernel = k })

  pub run : Op → Objects p.Kernel → Objects p.Kernel
  run (constructs a) o = construct a o
  run (closes a) o = close a o
  run (adopts a fd) o = of_fd a fd o
  run (moves a b) o = move_construct a b o
  run (assigns a b) o = move_assign a b o
  run (accepts c a) o = accept p c a o
  run (creates a d t r) o = create_impl a d t r o

  pub run_all : List Op → Objects p.Kernel → Objects p.Kernel
  run_all [] o = o
  run_all (x ∷ xs) o = run_all xs (run x o)

  run-same : (x : Op) (o : Objects p.Kernel) → run x o ≡ Ownership.run p x o
  unfolding run construct of_fd SyncSocket.of_fd close move_construct move_assign create_impl
      Ownership.run SyncSocket.construct SyncSocket.close SyncSocket.move_construct
      SyncSocket.move_assign SyncSocket.create_impl
  run-same (constructs a) o = refl
  run-same (closes a) o = refl
  run-same (adopts a fd) o = refl
  run-same (moves a b) o = refl
  run-same (assigns a b) o = refl
  run-same (accepts c a) o = refl
  run-same (creates a d t r) o = refl

  -- The sockets of macOS do what those of Linux do.
  run_all-same : (xs : List Op) (o : Objects p.Kernel) → run_all xs o ≡ Ownership.run_all p xs o
  unfolding run_all Ownership.run_all
  run_all-same [] o = refl
  run_all-same (x ∷ xs) o = run_all-same xs (run x o) ∙ ap (Ownership.run_all p xs) (run-same x o)

module _ (p : Posix) (law : Descriptors p) where
  -- Whatever is done with the sockets, where the constructor from a descriptor is only given descriptors that are open
  -- and owned by no object, no descriptor comes to have two owners, and each that is owned is open.
  pub mac_run_all-Owned :
      (xs : List Op) (o : Objects p.Kernel)
      → AllFit p law xs o
      → OwnedBy p law o
      → OwnedBy p law (run_all p xs o)
  mac_run_all-Owned xs o u v =
      subst (OwnedBy p law) (sym (run_all-same p xs o)) (run_all-Owned p law xs o u v)
