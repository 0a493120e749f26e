-- ===== src/WindowsSync/Leaks.antt =====
-- The `sync` sockets of Windows: an assignment leaves the old socket open with no owner, for good.
use acpp_network.Prelude.{ℕ, ◌≡◌, ◌≢◌, inl, inr, List, [], ◌∷◌, some, ◌==◌, ==→eq, if_cases}
use acpp_network.Posix.{Fd, invalid_fd, Sockaddr, sizeof_sockaddr}
use acpp_network.SyncSocket.{Objects, set, is_valid}
use acpp_network.SyncSocket.Store.{Owned, set-cases, none_absurd}
use acpp_network.WindowsSync.{
  System, Op, constructs, closes, adopts, moves, assigns, creates, connects, construct, of_fd,
  move_construct, move_assign, close, create_impl, connect, run, run_all,
}

-- What Winsock does with the sockets that are open: only `closesocket` closes one, and only the one that it is
-- given. The descriptors of the C runtime are no sockets.
pub record Sockets (w : System) : Type 1 where
  pub IsOpen : ℕ → w.Kernel → Type 0
  pub socket_fresh :
      (d t r : ℕ) (k : w.Kernel) (f : ℕ) → (w.wsa_socket d t r k).0 ≡ some f → ¬ (IsOpen f k)
  pub socket_keeps :
      (d t r : ℕ) (k : w.Kernel) (g : ℕ) → IsOpen g k → IsOpen g (w.wsa_socket d t r k).1
  pub connect_keeps :
      (fd : Fd) (adr : Sockaddr) (n : ℕ) (k : w.Kernel) (g : ℕ)
      → IsOpen g k
      → IsOpen g (w.wsa_connect fd adr n k).1
  pub shutdown_keeps : (fd : Fd) (k : w.Kernel) (g : ℕ) → IsOpen g k → IsOpen g (w.shutdown fd k)
  pub closesocket_keeps :
      (fd : Fd) (k : w.Kernel) (g : ℕ) → fd ≢ some g → IsOpen g k → IsOpen g (w.closesocket fd k)
  pub crt_close_keeps : (fd : Fd) (k : w.Kernel) (g : ℕ) → IsOpen g k → IsOpen g (w.crt_close fd k)

-- The operation is not the constructor from this descriptor.
abbrev pub Unadopted : ℕ → Op → Type 0
Unadopted f (adopts a fd) = fd ≢ some f
Unadopted f (constructs a) = Unit {0}
Unadopted f (closes a) = Unit {0}
Unadopted f (moves a b) = Unit {0}
Unadopted f (assigns a b) = Unit {0}
Unadopted f (creates a d t r) = Unit {0}
Unadopted f (connects a adr) = Unit {0}

abbrev pub AllUnadopted : ℕ → List Op → Type 0
AllUnadopted f [] = Unit {0}
AllUnadopted f (x ∷ xs) = Unadopted f x × AllUnadopted f xs

module _ (w : System) (law : Sockets w) (f : ℕ) where
  -- The socket is open, and no object has it.
  pub record IsLeaked (o : Objects w.Kernel) : Type 0 where
    pub unowned : (c : ℕ) → o.fd_ c ≢ some f
    pub still_open : law.IsOpen f o.kernel

  set_unowned :
      (a : ℕ) (fd : Fd) (s : ℕ → Fd)
      → fd ≢ some f
      → ((c : ℕ) → s c ≢ some f)
      → (c : ℕ) → set a fd s c ≢ some f
  set_unowned a fd s ne others c h = elim (set-cases a fd s c f h) [
    | inl x ↦ ne x.1
    | inr x ↦ others c x.1
  ]

  moved_unowned :
      (a other : ℕ) (o : Objects w.Kernel)
      → ((c : ℕ) → o.fd_ c ≢ some f)
      → (c : ℕ) → set other invalid_fd (set a (o.fd_ other) o.fd_) c ≢ some f
  moved_unowned a other o n =
      set_unowned other invalid_fd (set a (o.fd_ other) o.fd_) (none_absurd f)
        (set_unowned a (o.fd_ other) o.fd_ (n other) n)

  close-IsLeaked : (a : ℕ) (o : Objects w.Kernel) → IsLeaked o → IsLeaked (close w a o)
  unfolding close
  close-IsLeaked a o v =
      if_cases IsLeaked (is_valid (o.fd_ a))
        (λ held. record {
          unowned = set_unowned a invalid_fd o.fd_ (none_absurd f) v.unowned;
          still_open =
              law.closesocket_keeps (o.fd_ a) (w.shutdown (o.fd_ a) o.kernel) f (v.unowned a)
                (law.shutdown_keeps (o.fd_ a) o.kernel f v.still_open);
        })
        (λ empty. v)

  create_impl-IsLeaked :
      (a d t r : ℕ) (o : Objects w.Kernel) → IsLeaked o → IsLeaked (create_impl w a d t r o)
  unfolding create_impl
  create_impl-IsLeaked a d t r o v =
      let o' = close w a o in
      let u = close-IsLeaked a o v in
      record {
        unowned =
            set_unowned a (w.wsa_socket d t r o'.kernel).0 o'.fd_
              (λ e. law.socket_fresh d t r o'.kernel f e u.still_open) u.unowned;
        still_open = law.socket_keeps d t r o'.kernel f u.still_open;
      }

  move_assign-IsLeaked :
      (a other : ℕ) (o : Objects w.Kernel) → IsLeaked o → IsLeaked (move_assign w a other o)
  unfolding move_assign
  move_assign-IsLeaked a other o v =
      if_cases IsLeaked (a == other) (λ same. v)
        (λ ne. record {
          unowned = moved_unowned a other o v.unowned;
          still_open = law.crt_close_keeps (o.fd_ a) o.kernel f v.still_open;
        })

  run-IsLeaked : (x : Op) (o : Objects w.Kernel) → Unadopted f x → IsLeaked o → IsLeaked (run w x o)
  unfolding run construct of_fd move_construct connect
  run-IsLeaked (constructs a) o u v = record {
    unowned = set_unowned a invalid_fd o.fd_ (none_absurd f) v.unowned;
    still_open = v.still_open;
  }
  run-IsLeaked (closes a) o u v = close-IsLeaked a o v
  run-IsLeaked (adopts a fd) o u v = record {
    unowned = set_unowned a fd o.fd_ u v.unowned;
    still_open = v.still_open;
  }
  run-IsLeaked (moves a b) o u v = record {
    unowned = moved_unowned a b o v.unowned;
    still_open = v.still_open;
  }
  run-IsLeaked (assigns a b) o u v = move_assign-IsLeaked a b o v
  run-IsLeaked (creates a d t r) o u v = create_impl-IsLeaked a d t r o v
  run-IsLeaked (connects a adr) o u v = record {
    unowned = v.unowned;
    still_open = law.connect_keeps (o.fd_ a) adr sizeof_sockaddr o.kernel f v.still_open;
  }

  run_all-IsLeaked :
      (xs : List Op) (o : Objects w.Kernel)
      → AllUnadopted f xs
      → IsLeaked o
      → IsLeaked (run_all w xs o)
  unfolding run_all
  run_all-IsLeaked [] o u v = v
  run_all-IsLeaked (x ∷ xs) o u v = run_all-IsLeaked xs (run w x o) u.1 (run-IsLeaked x o u.0 v)

  assigned-IsLeaked :
      (a other : ℕ) (o : Objects w.Kernel)
      → Owned w.Kernel law.IsOpen o
      → a ≢ other
      → o.fd_ a ≡ some f
      → IsLeaked (move_assign w a other o)
  unfolding move_assign
  assigned-IsLeaked a other o v ne h =
      if_cases IsLeaked (a == other) (λ same. absurd (ne (==→eq a other same)))
        (λ differ. record {
          unowned = λ c e. elim (set-cases other invalid_fd (set a (o.fd_ other) o.fd_) c f e) [
            | inl x ↦ none_absurd f x.1
            | inr x ↦ elim (set-cases a (o.fd_ other) o.fd_ c f x.1) [
              | inl y ↦ ne (v.alone a other f h y.1)
              | inr y ↦ y.0 (v.alone a c f h y.1)
            ]
          ];
          still_open = law.crt_close_keeps (o.fd_ a) o.kernel f (v.holds a f h);
        })

  -- Where each open descriptor has one owner, a move assignment to a socket that holds one, from another object,
  -- leaks it: after the assignment, and after whatever is done with the objects from then on, but for
  -- the constructor from that very descriptor, the descriptor is open and no object owns it.
  pub move_assign-leaks :
      (a other : ℕ) (xs : List Op) (o : Objects w.Kernel)
      → Owned w.Kernel law.IsOpen o
      → a ≢ other
      → o.fd_ a ≡ some f
      → AllUnadopted f xs
      → IsLeaked (run_all w xs (move_assign w a other o))
  move_assign-leaks a other xs o v ne h u =
      run_all-IsLeaked xs (move_assign w a other o) u (assigned-IsLeaked a other o v ne h)
