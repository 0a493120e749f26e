-- ===== src/AsyncSocket/Put.antt =====
-- A store of what is owned, after an assignment.
use acpp_network.Prelude.{
  ℕ, ◌≡◌, ap, ◌≢◌, ◌⊎◌, inl, inr, true, false, Option, arith, ◌==◌, ==→eq, ==→ne, if_cases,
  if◌then◌else◌,
}
use acpp_network.AsyncSocket.{put}

same_test : (a : ℕ) → (a == a) ≡ true
same_test a = ground arith

other_test : (a b : ℕ) → a ≢ b → (a == b) ≡ false
other_test a b ne = ground arith

pub put-same : {A : Type 0} (a : ℕ) (x : Option A) (s : ℕ → Option A) → put a x s a ≡ x
put-same a x s = ap (λ b. if b then x else s a) (same_test a)

pub put-other :
    {A : Type 0} (a : ℕ) (x : Option A) (s : ℕ → Option A) (c : ℕ) → a ≢ c → put a x s c ≡ s c
put-other a x s c ne = ap (λ b. if b then x else s c) (other_test a c ne)

pub put-cases :
    {A : Type 0} (a : ℕ) (v : Option A) (s : ℕ → Option A) (c : ℕ) (r : Option A)
    → put a v s c ≡ r
    → ((a ≡ c) × (v ≡ r)) ⊎ ((a ≢ c) × (s c ≡ r))
put-cases {A} a v s c r =
    if_cases (λ (y : Option A). y ≡ r → ((a ≡ c) × (v ≡ r)) ⊎ ((a ≢ c) × (s c ≡ r))) (a == c)
      (λ same h. inl (==→eq a c same, h)) (λ other h. inr (==→ne a c other, h))
