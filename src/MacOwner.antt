-- ===== src/MacOwner.antt =====
-- src/macos/socket_base.cpp: `async_socket_base`, the owner of a `socket_base_pimpl`, which has no destructor of its
-- own. The objects are a store, since a move changes two of them.
pub mod Dropped
use acpp_network.Prelude.{
  ℕ, Bool, true, false, [], Option, none, some, Result, Action, ok, throw, out_of_fuel, fault, ◌==◌,
  if◌then◌else◌,
}
use acpp_network.Posix.{Fd}
use acpp_network.AsyncSocket.{put}
use acpp_network.MacSocket.{Env, Machine, SocketBasePimpl, create, of_fd, add_socket, valid, close}
use acpp_network.SocketTypes.{SocketCallbacks}

-- The `pimpl_` of every object, by the object's address.
pub record Owners (e : Env) : Type 0 where
  pub pimpl_ : ℕ → Option SocketBasePimpl
  pub kernel : e.Kernel

module _ (e : Env) where
  -- Where `add_socket` throws there is no object, and the implementation is gone.
  constructed : ℕ → Owners e → Result (Unit {0}) × Machine e → Result (Unit {0}) × Owners e
  constructed a o (ok u, m) =
      (ok u, record { pimpl_ = put a (some m.sock) o.pimpl_; kernel = m.kernel })
  constructed a o (throw x, m) = (throw x, record o { kernel = m.kernel })
  constructed a o (out_of_fuel, m) = (out_of_fuel, record o { kernel = m.kernel })

  pub construct : ℕ → ℕ → ℕ → ℕ → SocketCallbacks → Action (Owners e) (Unit {0})
  construct a domain type protocol callbacks o =
      constructed a o (add_socket e (create e domain type protocol callbacks o.kernel))

  -- The constructor from a descriptor.
  pub adopt : ℕ → ℕ → ℕ → ℕ → Fd → SocketCallbacks → Action (Owners e) (Unit {0})
  adopt a domain type protocol fd callbacks o =
      constructed a o (add_socket e (of_fd e domain type protocol fd callbacks o.kernel))

  -- `pimpl_->parent_ = this` after `pimpl_` has been moved to: null where the other object was empty.
  moved : Option SocketBasePimpl → Owners e → Result (Unit {0}) × Owners e
  moved none o = (throw fault, o)
  moved (some s) o = (ok tt, o)

  pub move_construct : ℕ → ℕ → Action (Owners e) (Unit {0})
  move_construct a other o =
      moved (o.pimpl_ other)
        (record o { pimpl_ = put other none (put a (o.pimpl_ other) o.pimpl_) })

  -- The implementation that the object had is freed, and its descriptor is not closed. An assignment to itself
  -- leaves `pimpl_`.
  pub move_assign : ℕ → ℕ → Action (Owners e) (Unit {0})
  move_assign a other o = moved (o.pimpl_ other) (
      if a == other
      then o
      else (record o { pimpl_ = put other none (put a (o.pimpl_ other) o.pimpl_) }))

  pub close_pimpl : ℕ → Option SocketBasePimpl → Owners e → Owners e
  close_pimpl a none o = o
  close_pimpl a (some s) o =
      let m = close e (record { sock = s; kernel = o.kernel; calls = [] }) in
      record { pimpl_ = put a (some m.sock) o.pimpl_; kernel = m.kernel }

  pub close_owner : ℕ → Owners e → Owners e
  close_owner a o = close_pimpl a (o.pimpl_ a) o

  valid_pimpl : Option SocketBasePimpl → Bool
  valid_pimpl none = false
  valid_pimpl (some s) = valid s

  pub valid_owner : ℕ → Owners e → Bool
  valid_owner a o = valid_pimpl (o.pimpl_ a)

  -- The destructor closes, and frees the implementation.
  pub destroy : ℕ → Owners e → Owners e
  destroy a o = record (close_owner a o) { pimpl_ = put a none (close_owner a o).pimpl_ }
