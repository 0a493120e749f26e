-- ===== src/MacLoop/Batch.antt =====
-- A batch of events: the timers that no callback of the batch destroys are safe, and their callbacks are called.
use acpp_network.Prelude.{ℕ, ◌≡◌, Bool, true, List, ◌++◌, some}
use acpp_network.MacLoop.{Env, Loop, TimerImpl}
use acpp_network.MacLoop.Sparing.{Sublist, Sparing}

module _ (e : Env) (T : ℕ → Bool) (law : Sparing e T) where
  abbrev pub Alive : Loop e → Type 0
  Alive m = (a : ℕ) → T a ≡ true → (t : TimerImpl) × (m.timers a ≡ some t)

  -- The timers are what they were, and these functions have been called.
  record Grown (rs : List ℕ) (m : Loop e) (u : Unit {0}) (m' : Loop e) : Type 0 where
    kept : (a : ℕ) → T a ≡ true → m'.timers a ≡ m.timers a
    ran : m'.ran ≡ m.ran ++ rs

  -- The timers are what they were, and the functions called since include these, in this order.
  pub record Done (fs : List ℕ) (m : Loop e) (u : Unit {0}) (m' : Loop e) : Type 0 where
    pub kept : (a : ℕ) → T a ≡ true → m'.timers a ≡ m.timers a
    pub more : List ℕ
    pub ran : m'.ran ≡ m.ran ++ more
    pub includes : Sublist fs more
