-- ===== src/AsyncSocket.antt =====
-- src/linux/socket_base.cpp: `async_socket_base`, the owner of a `socket_base_pimpl`. The objects are a store,
-- since a move changes two of them; the members that only call the implementation are its own
-- (LinuxSocket).
pub mod Put
pub mod Closing
use acpp_network.Prelude.{ℕ, Bool, true, false, Option, none, some, ◌==◌, if◌then◌else◌}
use acpp_network.Posix.{Fd}
use acpp_network.LinuxSocket.{Env, SocketBasePimpl, create, of_fd}
use acpp_network.SocketTypes.{SocketCallbacks}

-- The `pimpl_` of every object, by the object's address.
pub record Owners (e : Env) : Type 0 where
  pub pimpl_ : ℕ → Option SocketBasePimpl
  pub kernel : e.Kernel

abbrev pub put : {A : Type 0} → ℕ → Option A → (ℕ → Option A) → ℕ → Option A
put a x s b = if a == b then x else s b

module _ (e : Env) where
  -- The two constructors.
  pub construct : ℕ → ℕ → ℕ → ℕ → SocketCallbacks → Owners e → Owners e
  construct a domain type protocol callbacks o =
      let (s, k) = create e domain type protocol callbacks o.kernel in
      record { pimpl_ = put a (some s) o.pimpl_; kernel = k }

  pub adopt : ℕ → ℕ → ℕ → ℕ → Fd → SocketCallbacks → Owners e → Owners e
  adopt a domain type protocol fd callbacks o =
      let (s, k) = of_fd e domain type protocol fd callbacks o.kernel in
      record { pimpl_ = put a (some s) o.pimpl_; kernel = k }

  pub move_construct : ℕ → ℕ → Owners e → Owners e
  move_construct a other o = record o { pimpl_ = put other none (put a (o.pimpl_ other) o.pimpl_) }

  close_fd : Fd → SocketBasePimpl → e.Kernel → Option SocketBasePimpl × e.Kernel
  close_fd none s k = (some (record s { fd_ = none }), k)
  close_fd (some f) s k = (some (record s { fd_ = none }), e.close (some f) k)

  close_pimpl : Option SocketBasePimpl → e.Kernel → Option SocketBasePimpl × e.Kernel
  close_pimpl none k = (none, k)
  close_pimpl (some s) k = close_fd s.fd_ s k

  pub close : ℕ → Owners e → Owners e
  close a o =
      let (x, k) = close_pimpl (o.pimpl_ a) o.kernel in
      record { pimpl_ = put a x o.pimpl_; kernel = k }

  valid_pimpl : Option SocketBasePimpl → Bool
  valid_pimpl none = false
  valid_pimpl (some s) = elim s.fd_ [ none ↦ false | some f ↦ true ]

  pub valid : ℕ → Owners e → Bool
  valid a o = valid_pimpl (o.pimpl_ a)

  -- The implementation that the object had is destroyed, which closes it.
  pub move_assign : ℕ → ℕ → Owners e → Owners e
  move_assign a other o = if a == other then o else (record {
    pimpl_ = put other none (put a (o.pimpl_ other) o.pimpl_);
    kernel = (close_pimpl (o.pimpl_ a) o.kernel).1;
  })

  -- The destructor closes, and destroys what it closed.
  pub destroy : ℕ → Owners e → Owners e
  destroy a o = record (close a o) { pimpl_ = put a none (close a o).pimpl_ }
