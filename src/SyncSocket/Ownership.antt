-- ===== src/SyncSocket/Ownership.antt =====
-- Descriptors and the objects that own them: no descriptor has two owners, and an owned one is open.
use acpp_network.Prelude.{ℕ, ◌≡◌, ◌≢◌, List, [], ◌∷◌, some, ◌==◌, if_cases}
use acpp_network.Posix.{Fd, Posix}
use acpp_network.SyncSocket.Store.{Owned, dropped-Owned, handed-Owned, given-Owned, acquired-Owned}
use acpp_network.SyncSocket.{
  Objects, is_valid, construct, of_fd, move_construct, move_assign, close, create_impl, accept,
}

-- What the system does with descriptors.
pub record Descriptors (p : Posix) : Type 1 where
  pub IsOpen : ℕ → p.Kernel → Type 0
  pub socket_new :
      (d t r : ℕ) (k : p.Kernel) (f : ℕ)
      → (p.socket d t r k).0 ≡ some f
      → IsOpen f (p.socket d t r k).1
  pub socket_fresh :
      (d t r : ℕ) (k : p.Kernel) (f : ℕ) → (p.socket d t r k).0 ≡ some f → ¬ (IsOpen f k)
  pub socket_keeps : (d t r : ℕ) (k : p.Kernel) (g : ℕ) → IsOpen g k → IsOpen g (p.socket d t r k).1
  pub accept_new :
      (fd : Fd) (k : p.Kernel) (f : ℕ) → (p.accept fd k).0 ≡ some f → IsOpen f (p.accept fd k).1
  pub accept_fresh : (fd : Fd) (k : p.Kernel) (f : ℕ) → (p.accept fd k).0 ≡ some f → ¬ (IsOpen f k)
  pub accept_keeps : (fd : Fd) (k : p.Kernel) (g : ℕ) → IsOpen g k → IsOpen g (p.accept fd k).1
  pub close_keeps :
      (fd : Fd) (k : p.Kernel) (g : ℕ) → fd ≢ some g → IsOpen g k → IsOpen g (p.close fd k)

-- What an object may be made to do.
pub data Op : Type 0 where
  constructs closes : ℕ → Op
  adopts : ℕ → Fd → Op
  moves assigns accepts : ℕ → ℕ → Op
  creates : ℕ → ℕ → ℕ → ℕ → Op

module _ (p : Posix) where
  unfoldable pub run : Op → Objects p.Kernel → Objects p.Kernel
  run (constructs a) o = construct p a o
  run (closes a) o = close p a o
  run (adopts a fd) o = of_fd p a fd o
  run (moves a b) o = move_construct p a b o
  run (assigns a b) o = move_assign p a b o
  run (accepts c a) o = accept p c a o
  run (creates a d t r) o = create_impl p a d t r o

  unfoldable pub run_all : List Op → Objects p.Kernel → Objects p.Kernel
  run_all [] o = o
  run_all (x ∷ xs) o = run_all xs (run x o)

module _ (p : Posix) (law : Descriptors p) where
  abbrev pub OwnedBy : Objects p.Kernel → Type 0
  OwnedBy = Owned p.Kernel law.IsOpen

  -- Closing the descriptor of `a` leaves those of the others open.
  others-IsOpen :
      (a : ℕ) (o : Objects p.Kernel)
      → OwnedBy o
      → (c f : ℕ) → a ≢ c
      → o.fd_ c ≡ some f
      → law.IsOpen f (p.close (o.fd_ a) o.kernel)
  others-IsOpen a o v c f ne h =
      law.close_keeps (o.fd_ a) o.kernel f (λ e. ne (v.alone a c f e h)) (v.holds c f h)

  construct-Owned : (a : ℕ) (o : Objects p.Kernel) → OwnedBy o → OwnedBy (construct p a o)
  unfolding construct
  construct-Owned a o v =
      dropped-Owned p.Kernel law.IsOpen a o o.kernel v (λ c f ne h. v.holds c f h)

  close-Owned : (a : ℕ) (o : Objects p.Kernel) → OwnedBy o → OwnedBy (close p a o)
  unfolding close
  close-Owned a o v =
      if_cases OwnedBy (is_valid (o.fd_ a))
        (λ held.
          dropped-Owned p.Kernel law.IsOpen a o (p.close (o.fd_ a) o.kernel) v
            (others-IsOpen a o v))
        (λ empty. v)

  move_assign-Owned :
      (a other : ℕ) (o : Objects p.Kernel) → OwnedBy o → OwnedBy (move_assign p a other o)
  unfolding move_assign
  move_assign-Owned a other o v =
      if_cases OwnedBy (a == other) (λ same. v)
        (λ ne.
          handed-Owned p.Kernel law.IsOpen a other o (p.close (o.fd_ a) o.kernel) v
            (others-IsOpen a o v))

  create_impl-Owned :
      (a d t r : ℕ) (o : Objects p.Kernel) → OwnedBy o → OwnedBy (create_impl p a d t r o)
  unfolding create_impl
  create_impl-Owned a d t r o v =
      let o' = close p a o in
      acquired-Owned p.Kernel law.IsOpen a (p.socket d t r o'.kernel).0 o'
        (p.socket d t r o'.kernel).1 (close-Owned a o v) (law.socket_new d t r o'.kernel)
        (law.socket_fresh d t r o'.kernel) (law.socket_keeps d t r o'.kernel)

  accept-Owned : (c a : ℕ) (o : Objects p.Kernel) → OwnedBy o → OwnedBy (accept p c a o)
  unfolding accept of_fd
  accept-Owned c a o v =
      if_cases OwnedBy (is_valid (o.fd_ a))
        (λ held.
          acquired-Owned p.Kernel law.IsOpen c (p.accept (o.fd_ a) o.kernel).0 o
            (p.accept (o.fd_ a) o.kernel).1 v (law.accept_new (o.fd_ a) o.kernel)
            (law.accept_fresh (o.fd_ a) o.kernel) (law.accept_keeps (o.fd_ a) o.kernel))
        (λ empty. construct-Owned c o v)

  -- The constructor from a descriptor may be given one that is open and that no object owns.
  abbrev pub Fits : Op → Objects p.Kernel → Type 0
  Fits (adopts a fd) o =
      (f : ℕ) → fd ≡ some f → law.IsOpen f o.kernel × ((c : ℕ) → o.fd_ c ≢ some f)
  Fits (constructs a) o = Unit {0}
  Fits (closes a) o = Unit {0}
  Fits (moves a b) o = Unit {0}
  Fits (assigns a b) o = Unit {0}
  Fits (accepts c a) o = Unit {0}
  Fits (creates a d t r) o = Unit {0}

  -- Each operation fits the objects as it finds them.
  abbrev pub AllFit : List Op → Objects p.Kernel → Type 0
  AllFit [] o = Unit {0}
  AllFit (x ∷ xs) o = Fits x o × AllFit xs (run p x o)

  run-Owned : (x : Op) (o : Objects p.Kernel) → Fits x o → OwnedBy o → OwnedBy (run p x o)
  unfolding run move_construct of_fd
  run-Owned (constructs a) o u v = construct-Owned a o v
  run-Owned (closes a) o u v = close-Owned a o v
  run-Owned (adopts a fd) o u v =
      given-Owned p.Kernel law.IsOpen a fd o v (λ f h. (u f h).0) (λ f c h. (u f h).1 c)
  run-Owned (moves a b) o u v =
      handed-Owned p.Kernel law.IsOpen a b o o.kernel v (λ c f ne h. v.holds c f h)
  run-Owned (assigns a b) o u v = move_assign-Owned a b o v
  run-Owned (accepts c a) o u v = accept-Owned c a o v
  run-Owned (creates a d t r) o u v = create_impl-Owned a d t r o v

  -- Whatever constructions, moves, assignments, closes, accepts and creations are done, in whatever order, where the
  -- constructor from a descriptor is only given descriptors that are open and owned by no object: no descriptor
  -- comes to have two owners and each one that is owned is open, if it was so before.
  pub run_all-Owned :
      (xs : List Op) (o : Objects p.Kernel) → AllFit xs o → OwnedBy o → OwnedBy (run_all p xs o)
  unfolding run_all
  run_all-Owned [] o u v = v
  run_all-Owned (x ∷ xs) o u v = run_all-Owned xs (run p x o) u.1 (run-Owned x o u.0 v)
