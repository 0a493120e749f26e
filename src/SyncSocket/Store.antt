-- ===== src/SyncSocket/Store.antt =====
-- Objects that own descriptors, whatever the system that opens and closes them.
use acpp_network.Prelude.{
  ℕ, ◌≡◌, sym, ◌∙◌, ◌≢◌, ◌⊎◌, inl, inr, some, arith, ◌==◌, ==→eq, ==→ne, if_cases,
}
use acpp_network.Posix.{Fd, invalid_fd}
use acpp_network.SyncSocket.{Objects, set}

pub set-cases :
    (a : ℕ) (fd : Fd) (s : ℕ → Fd) (c g : ℕ)
    → set a fd s c ≡ some g
    → ((a ≡ c) × (fd ≡ some g)) ⊎ ((a ≢ c) × (s c ≡ some g))
set-cases a fd s c g =
    if_cases (λ x. x ≡ some g → ((a ≡ c) × (fd ≡ some g)) ⊎ ((a ≢ c) × (s c ≡ some g))) (a == c)
      (λ same h. inl (==→eq a c same, h)) (λ other h. inr (==→ne a c other, h))

pub none_absurd : (f : ℕ) → invalid_fd ≡ some f → ⊥
none_absurd f h = ground arith

module _ (K : Type 0) (IsOpen : ℕ → K → Type 0) where
  pub record Owned (o : Objects K) : Type 0 where
    pub holds : (a f : ℕ) → o.fd_ a ≡ some f → IsOpen f o.kernel
    pub alone : (a b f : ℕ) → o.fd_ a ≡ some f → o.fd_ b ≡ some f → a ≡ b

  -- An object loses its descriptor, or passes it to another, and the kernel keeps open what the others
  -- hold.
  pub dropped-Owned :
      (a : ℕ) (o : Objects K) (k : K)
      → Owned o
      → ((c f : ℕ) → a ≢ c → o.fd_ c ≡ some f → IsOpen f k)
      → Owned (record { fd_ = set a invalid_fd o.fd_; kernel = k })
  dropped-Owned a o k v keeps = record {
    holds = λ c f h. elim (set-cases a invalid_fd o.fd_ c f h) [
      | inl x ↦ absurd (none_absurd f x.1)
      | inr x ↦ keeps c f x.0 x.1
    ];
    alone = λ c d f h i. elim (set-cases a invalid_fd o.fd_ c f h) [
      | inl x ↦ absurd (none_absurd f x.1)
      | inr x ↦ elim (set-cases a invalid_fd o.fd_ d f i) [
        | inl y ↦ absurd (none_absurd f y.1)
        | inr y ↦ v.alone c d f x.1 y.1
      ]
    ];
  }

  handed_alone :
      (a other c d f : ℕ) (o : Objects K)
      → Owned o
      → other ≢ c
      → other ≢ d
      → ((a ≡ c) × (o.fd_ other ≡ some f)) ⊎ ((a ≢ c) × (o.fd_ c ≡ some f))
      → ((a ≡ d) × (o.fd_ other ≡ some f)) ⊎ ((a ≢ d) × (o.fd_ d ≡ some f))
      → c ≡ d
  handed_alone a other c d f o v n n' (inl x) (inl y) = sym x.0 ∙ y.0
  handed_alone a other c d f o v n n' (inl x) (inr y) = absurd (n' (v.alone other d f x.1 y.1))
  handed_alone a other c d f o v n n' (inr x) (inl y) = absurd (n (v.alone other c f y.1 x.1))
  handed_alone a other c d f o v n n' (inr x) (inr y) = v.alone c d f x.1 y.1

  pub handed-Owned :
      (a other : ℕ) (o : Objects K) (k : K)
      → Owned o
      → ((c f : ℕ) → a ≢ c → o.fd_ c ≡ some f → IsOpen f k)
      → Owned (record { fd_ = set other invalid_fd (set a (o.fd_ other) o.fd_); kernel = k })
  handed-Owned a other o k v keeps =
      let t = set a (o.fd_ other) o.fd_ in
      record {
        holds = λ c f h. elim (set-cases other invalid_fd t c f h) [
          | inl x ↦ absurd (none_absurd f x.1)
          | inr x ↦ elim (set-cases a (o.fd_ other) o.fd_ c f x.1) [
            | inl y ↦ keeps other f (λ e. x.0 (sym e ∙ y.0)) y.1
            | inr y ↦ keeps c f y.0 y.1
          ]
        ];
        alone = λ c d f h i. elim (set-cases other invalid_fd t c f h) [
          | inl x ↦ absurd (none_absurd f x.1)
          | inr x ↦ elim (set-cases other invalid_fd t d f i) [
            | inl z ↦ absurd (none_absurd f z.1)
            | inr z ↦
                handed_alone a other c d f o v x.0 z.0 (set-cases a (o.fd_ other) o.fd_ c f x.1)
                  (set-cases a (o.fd_ other) o.fd_ d f z.1)
          ]
        ];
      }

  -- An object gets a descriptor that is open and has no owner.
  pub given-Owned :
      (a : ℕ) (fd : Fd) (o : Objects K)
      → Owned o
      → ((f : ℕ) → fd ≡ some f → IsOpen f o.kernel)
      → ((f c : ℕ) → fd ≡ some f → o.fd_ c ≢ some f)
      → Owned (record o { fd_ = set a fd o.fd_ })
  given-Owned a fd o v is_open unowned = record {
    holds = λ c f h. elim (set-cases a fd o.fd_ c f h) [
      | inl x ↦ is_open f x.1
      | inr x ↦ v.holds c f x.1
    ];
    alone = λ c d f h i. elim (set-cases a fd o.fd_ c f h) [
      | inl x ↦ elim (set-cases a fd o.fd_ d f i) [
        | inl y ↦ sym x.0 ∙ y.0
        | inr y ↦ absurd (unowned f d x.1 y.1)
      ]
      | inr x ↦ elim (set-cases a fd o.fd_ d f i) [
        | inl y ↦ absurd (unowned f c y.1 x.1)
        | inr y ↦ v.alone c d f x.1 y.1
      ]
    ];
  }

  -- An object gets a descriptor that was not open.
  pub acquired-Owned :
      (a : ℕ) (fd : Fd) (o : Objects K) (k : K)
      → Owned o
      → ((f : ℕ) → fd ≡ some f → IsOpen f k)
      → ((f : ℕ) → fd ≡ some f → ¬ (IsOpen f o.kernel))
      → ((f : ℕ) → IsOpen f o.kernel → IsOpen f k)
      → Owned (record { fd_ = set a fd o.fd_; kernel = k })
  acquired-Owned a fd o k v new fresh keeps = record {
    holds = λ c f h. elim (set-cases a fd o.fd_ c f h) [
      | inl x ↦ new f x.1
      | inr x ↦ keeps f (v.holds c f x.1)
    ];
    alone = λ c d f h i. elim (set-cases a fd o.fd_ c f h) [
      | inl x ↦ elim (set-cases a fd o.fd_ d f i) [
        | inl y ↦ sym x.0 ∙ y.0
        | inr y ↦ absurd (fresh f x.1 (v.holds d f y.1))
      ]
      | inr x ↦ elim (set-cases a fd o.fd_ d f i) [
        | inl y ↦ absurd (fresh f y.1 (v.holds c f x.1))
        | inr y ↦ v.alone c d f x.1 y.1
      ]
    ];
  }
