-- ===== src/MacLoop/Sparing.antt =====
-- Which timers live through a batch of events, and whose callbacks are due in it.
use acpp_network.Prelude.{
  ℕ, ◌≡◌, refl, Bool, true, false, List, [], ◌∷◌, ◌++◌, Option, none, some, ==→eq, ◌==◌, if_cases,
}
use acpp_network.MacLoop.{
  Env, TimerImpl, Event, timer_event, user_event, socket_event, Do, do_exec, do_stop, do_timer,
  do_cancel, do_destroy, set_timer,
}

-- `Sublist xs ys`: `xs` is what is left of `ys` when some of it is taken out.
pub data Sublist : List ℕ → List ℕ → Type 0 where
  none_left : Sublist [] []
  keep : (x : ℕ) {xs ys : List ℕ} → Sublist xs ys → Sublist (x ∷ xs) (x ∷ ys)
  skip : (y : ℕ) {xs ys : List ℕ} → Sublist xs ys → Sublist xs (y ∷ ys)

pub Sublist-same : (fs xs ys : List ℕ) → Sublist xs ys → Sublist (fs ++ xs) (fs ++ ys)
Sublist-same [] xs ys s = s
Sublist-same (f ∷ fs) xs ys s = keep f (Sublist-same fs xs ys s)

pub Sublist-more : (fs xs ys : List ℕ) → Sublist xs ys → Sublist xs (fs ++ ys)
Sublist-more [] xs ys s = s
Sublist-more (f ∷ fs) xs ys s = skip f (Sublist-more fs xs ys s)

abbrev pub set_function : Option ℕ → List ℕ
set_function none = []
set_function (some f) = f ∷ []

abbrev pub function_of : Option TimerImpl → List ℕ
function_of none = []
function_of (some t) = set_function t.cb_

-- The functions of the timers whose events these are, in the order of the events.
abbrev pub due : (ℕ → Option TimerImpl) → List Event → List ℕ
due timers [] = []
due timers (timer_event a ∷ evs) = function_of (timers a) ++ due timers evs
due timers (user_event ∷ evs) = due timers evs
due timers (socket_event s ∷ evs) = due timers evs

-- `T` are the timers that live through the batch.
module _ (T : ℕ → Bool) where
  -- They are not destroyed, none is made in their place, and no other is cancelled.
  abbrev pub SparesOne : Do → Type 0
  SparesOne (do_exec f) = Unit {0}
  SparesOne do_stop = Unit {0}
  SparesOne (do_cancel a) = T a ≡ true
  SparesOne (do_destroy a) = T a ≡ false
  SparesOne (do_timer a milliseconds cb) = T a ≡ false

  abbrev pub Spares : List Do → Type 0
  Spares [] = Unit {0}
  Spares (d ∷ ds) = SparesOne d × Spares ds

  -- The timers whose events these are live through the batch.
  abbrev pub Covers : List Event → Type 0
  Covers [] = Unit {0}
  Covers (timer_event a ∷ evs) = (T a ≡ true) × Covers evs
  Covers (user_event ∷ evs) = Covers evs
  Covers (socket_event s ∷ evs) = Covers evs

  pub set_timer-other :
      (a b : ℕ) (x : Option TimerImpl) (timers : ℕ → Option TimerImpl)
      → T a ≡ false
      → T b ≡ true
      → set_timer a x timers b ≡ timers b
  set_timer-other a b x timers h j =
      if_cases (λ o. o ≡ timers b) (a == b) (λ same. let e = ==→eq a b same in absurd (cc))
        (λ other. refl)

pub record Sparing (e : Env) (T : ℕ → Bool) : Type 0 where
  pub calls : (f : ℕ) → Spares T (e.calls f)
  pub sockets : (s : ℕ) (k : e.Kernel) → Spares T (e.socket_handler s k).0
