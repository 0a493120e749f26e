-- ===== src/Tests/WindowsSync.antt =====
-- A Winsock that gives the descriptors 0, 1, 2, … and remembers which were closed; a socket that is leaked in it.
use acpp_network.Prelude.{
  ℕ, suc, ◌≡◌, refl, sym, ◌∙◌, ◌<◌, ◌≢◌, inl, inr, Bool, true, false, [], ◌∷◌, List, none, some,
  arith, ◌==◌, if◌then◌else◌, if_cases, ==→eq, ap,
}
use acpp_network.Posix.{Fd}
use acpp_network.SyncSocket.{Objects, set}
use acpp_network.SyncSocket.Store.{Owned, set-cases, none_absurd}
use acpp_network.WindowsSync.{System, Op, closes, assigns, creates, move_assign, run_all}
use acpp_network.WindowsSync.Leaks.{Sockets, IsLeaked, move_assign-leaks}

abbrev Kernel : Type 0
Kernel = (ℕ → Bool) × ℕ

abbrev close_in : Fd → (ℕ → Bool) → ℕ → Bool
close_in none closed x = closed x
close_in (some f) closed x = if f == x then true else closed x

abbrev winsock : System
winsock = record {
  Kernel = Kernel;
  wsa_socket = λ _ _ _ k. (some k.1, (k.0, suc k.1));
  wsa_connect = λ _ _ _ k. (true, k);
  shutdown = λ _ k. k;
  closesocket = λ fd k. (close_in fd k.0, k.1);
  crt_close = λ _ k. k;
}

close_in-other :
    (fd : Fd) (closed : ℕ → Bool) (g : ℕ)
    → fd ≢ some g
    → closed g ≡ false
    → close_in fd closed g ≡ false
close_in-other none closed g ne h = h
close_in-other (some f) closed g ne h =
    if_cases (λ b. b ≡ false) (f == g) (λ e. absurd (ne (ap some (==→eq f g e)))) (λ e. h)

some_eq : (k f : ℕ) → some k ≡ some f → k ≡ f
some_eq k f h = ground arith

abbrev IsOpenIn : ℕ → Kernel → Type 0
IsOpenIn g k = (g < k.1) × (k.0 g ≡ false)

sockets : Sockets winsock
sockets = record {
  IsOpen = IsOpenIn;
  socket_fresh = λ _ _ _ k f h at. let e = some_eq k.1 f h in let l = at.0 in omega arith;
  socket_keeps = λ _ _ _ k g h. let l = h.0 in (omega arith, h.1);
  connect_keeps = λ _ _ _ k g h. h;
  shutdown_keeps = λ _ k g h. h;
  closesocket_keeps = λ fd k g ne h. (h.0, close_in-other fd k.0 g ne h.1);
  crt_close_keeps = λ _ k g h. h;
}

-- The object 1 has the descriptor 0, and no other has one.
abbrev one_socket : Objects Kernel
one_socket = record { fd_ = set 1 (some 0) (λ a. none); kernel = (λ g. false, 1) }

one_socket-Owned : Owned Kernel sockets.IsOpen one_socket
unfolding sockets
one_socket-Owned = record {
  holds = λ a f h. elim (set-cases 1 (some 0) (λ b. none) a f h) [
    | inl x ↦ let e = some_eq 0 f x.1 in (omega arith, refl)
    | inr x ↦ absurd (none_absurd f x.1)
  ];
  alone = λ a b f h i. elim (set-cases 1 (some 0) (λ c. none) a f h) [
    | inl x ↦ elim (set-cases 1 (some 0) (λ c. none) b f i) [
      | inl y ↦ sym x.0 ∙ y.0
      | inr y ↦ absurd (none_absurd f y.1)
    ]
    | inr x ↦ absurd (none_absurd f x.1)
  ];
}

abbrev later : List Op
later = creates 2 2 1 0 ∷ assigns 1 2 ∷ closes 1 ∷ []

ones_differ : ◌≢◌ {A = ℕ} 1 2
ones_differ e = omega arith

move_assign-leaks_example :
    IsLeaked winsock sockets 0 (run_all winsock later (move_assign winsock 1 2 one_socket))
move_assign-leaks_example =
    move_assign-leaks winsock sockets 0 1 2 later one_socket one_socket-Owned ones_differ refl
      (tt, (tt, (tt, tt)))
