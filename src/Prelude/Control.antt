-- ===== src/Prelude/Control.antt =====
-- A call of the program: the state it leaves, and how it ended. What was written before a throw
-- stays written, so the state comes back on every outcome.
use Prim.Native.Nat.{ℕ}
use mathlib.Core.Bool.{Bool, true, false}
use mathlib.Core.Path.{◌≡◌, refl}

-- The exceptions of the source, with what a handler can read from them. `fault` is none of them: it is a
-- use of a null pointer or of an object that is gone.
pub data Error : Type 0 where
  runtime_error invalid_argument ssl_exception bad_function_call fault : Error
  socket_exception : ℕ → Error

-- `out_of_fuel` is a loop that had not ended when the fuel of the model was used up.
pub data Result (A : Type 0) : Type 0 where
  ok : A → Result A
  throw : Error → Result A
  out_of_fuel : Result A

abbrev pub Action : Type 0 → Type 0 → Type 0
Action S A = S → Result A × S

module _ {S A : Type 0} where
  abbrev pub pure : A → Action S A
  pure a s = (ok a, s)

  abbrev pub throws : Error → Action S A
  throws e s = (throw e, s)

-- What follows a call, by how it ended.
abbrev pub continue : {S A B : Type 0} → Result A × S → (A → Action S B) → Result B × S
continue (ok a, s) f = f a s
continue (throw e, s) f = (throw e, s)
continue (out_of_fuel, s) f = (out_of_fuel, s)

infixl 5 ◌>>=◌ ◌>>◌
abbrev pub ◌>>=◌ : {S A B : Type 0} → Action S A → (A → Action S B) → Action S B
◌>>=◌ m f s = continue (m s) f

abbrev pub ◌>>◌ : {S B : Type 0} → Action S (Unit {0}) → Action S B → Action S B
m >> k = m >>= λ _. k

abbrev pub modify : {S : Type 0} → (S → S) → Action S (Unit {0})
modify f s = (ok tt, f s)

abbrev pub gets : {S A : Type 0} → (S → A) → Action S A
gets f s = (ok (f s), s)

-- A statement of an `if` that has no `else`.
abbrev pub when : {S : Type 0} → Bool → Action S (Unit {0}) → Action S (Unit {0})
when true m = m
when false m = pure tt

-- A call on a part of the state, put back by `put`.
abbrev pub on_part : {S W A : Type 0} → Result A × W → (W → S) → Result A × S
on_part (r, w) put = (r, put w)

-- The call returned, with a value and a state that satisfy `P`.
abbrev pub Ensures : {S A : Type 0} → (A → S → Type 0) → Result A × S → Type 0
Ensures P (ok a, s) = P a s
Ensures P (throw _, s) = ⊥
Ensures P (out_of_fuel, s) = ⊥

module _ {S A : Type 0} (P : A → S → Type 0) where
  pub continue-Ensures :
      {B : Type 0} (Q : B → S → Type 0) (f : A → Action S B) (x : Result A × S)
      → Ensures P x
      → ((a : A) (s : S) → P a s → Ensures Q (f a s))
      → Ensures Q (continue x f)
  continue-Ensures Q f (ok a, s) h k = k a s h
  continue-Ensures Q f (throw e, s) h k = absurd h
  continue-Ensures Q f (out_of_fuel, s) h k = absurd h

  pub on_part-Ensures :
      {T : Type 0} (Q : A → T → Type 0) (put : S → T) (x : Result A × S)
      → Ensures P x
      → ((a : A) (s : S) → P a s → Q a (put s))
      → Ensures Q (on_part x put)
  on_part-Ensures Q put (ok a, s) h k = k a s h
  on_part-Ensures Q put (throw e, s) h k = absurd h
  on_part-Ensures Q put (out_of_fuel, s) h k = absurd h

  pub Ensures-mono :
      (Q : A → S → Type 0) (x : Result A × S)
      → ((a : A) (s : S) → P a s → Q a s)
      → Ensures P x
      → Ensures Q x
  Ensures-mono Q (ok a, s) k h = k a s h
  Ensures-mono Q (throw e, s) k h = absurd h
  Ensures-mono Q (out_of_fuel, s) k h = absurd h

  -- It ended so, with a value and a state that can be named.
  pub Ensures-ok : (x : Result A × S) → Ensures P x → (a : A) × (s : S) × (x ≡ (ok a, s)) × P a s
  Ensures-ok (ok a, s) h = (a, s, refl, h)
  Ensures-ok (throw e, s) h = absurd h
  Ensures-ok (out_of_fuel, s) h = absurd h

  -- A call that returns, with something that holds of its state however it ends.
  pub Ensures-and :
      (Q : S → Type 0) (x : Result A × S) → Ensures P x → Q x.1 → Ensures (λ a s. P a s × Q s) x
  Ensures-and Q (ok a, s) h k = (h, k)
  Ensures-and Q (throw e, s) h k = absurd h
  Ensures-and Q (out_of_fuel, s) h k = absurd h

-- What follows a call, with one property before it and another after.
pub continue_inv :
    {S A B : Type 0} (P Q : S → Type 0) (x : Result A × S) (f : A → Action S B)
    → P x.1
    → ((m : S) → P m → Q m)
    → ((r : A) (m : S) → P m → Q (f r m).1)
    → Q (continue x f).1
continue_inv P Q (ok r, m) f h w g = g r m h
continue_inv P Q (throw err, m) f h w g = w m h
continue_inv P Q (out_of_fuel, m) f h w g = w m h
