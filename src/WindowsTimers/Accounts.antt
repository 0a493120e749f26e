-- ===== src/WindowsTimers/Accounts.antt =====
-- How often a number occurs in a list, and the handle of what a store holds.
use acpp_network.Prelude.{
  ℕ, ◌≡◌, ap, ◌+◌, ◌≤◌, ◌⊎◌, inl, inr, ◌≢◌, List, [], ◌∷◌, ◌++◌, Option, none, some, arith, ◌==◌,
  ==→eq, ==→ne, Bool-cases, if◌then◌else◌,
}
use acpp_network.WindowsTimers.{TimerImpl}

abbrev pub hit : ℕ → ℕ → ℕ
hit x p = if x == p then 1 else 0

abbrev pub count : ℕ → List ℕ → ℕ
count x [] = 0
count x (p ∷ ps) = hit x p + count x ps

pub count-append : (x : ℕ) (ps qs : List ℕ) → count x (ps ++ qs) ≡ count x ps + count x qs
count-append x [] qs = omega arith
count-append x (p ∷ ps) qs = omega (arith, count-append x ps qs)

-- A function that is taken out of those that wait.
pub count-taken :
    (x p : ℕ) (before after : List ℕ)
    → count x (before ++ p ∷ after) ≡ hit x p + count x (before ++ after)
count-taken x p before after =
    omega (arith, count-append x before (p ∷ after), count-append x before after)

pub same-cases : (a b : ℕ) → (a ≡ b) ⊎ (a ≢ b)
same-cases a b = elim (Bool-cases (a == b)) [
  | inl h ↦ inl (==→eq a b h)
  | inr h ↦ inr (==→ne a b h)
]

pub nothing : {A : Type 0} (i : A) (o : Option A) → o ≡ none → o ≡ some i → ⊥
nothing i none e h = ground arith
nothing i (some a) e h = ground arith

-- What is known of what a store gives at an address, given that it is there.
pub same_impl : (i j : TimerImpl) → some i ≡ some j → i ≡ j
same_impl i j h = ap (λ o. elim o [ none ↦ i | some k ↦ k ]) h

pub hit-most : (x p : ℕ) → hit x p ≤ 1
hit-most x p = ground arith

pub hit-same : (x : ℕ) → hit x x ≡ 1
hit-same x = ground arith

pub hit-other : (x p : ℕ) → x ≢ p → hit x p ≡ 0
hit-other x p ne = ground arith
