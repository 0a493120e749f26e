-- ===== src/ExecThreads.antt =====
-- src/macos/socket_base.cpp and src/linux/socket_base.cpp: `exec` called from several threads while the loop runs.
-- A call pushes under the mutex, and triggers the loop's event after it; the loop is woken, and then swaps
-- the queue out under the mutex. These are the steps, in any order that the threads take them.
pub mod Wakeups
pub mod Progress
use acpp_network.Prelude.{ℕ, suc, ◌≡◌, Bool, true, false, not, List, [], ◌∷◌, ◌++◌}

-- Where the loop is: in its wait, out of it but not at the queue yet, or calling what it took.
pub data LoopPc : Type 0 where
  waiting woken : LoopPc
  running : List ℕ → LoopPc

-- `between` is the number of calls of `exec` that have pushed and not triggered; `triggered` is the user event, or
-- that the eventfd can be read; `asked` is every callback that was pushed, in order.
pub record System : Type 0 where
  pub pending_callbacks_ : List ℕ
  pub triggered : Bool
  pub between : ℕ
  pub pc : LoopPc
  pub ran : List ℕ
  pub asked : List ℕ

-- `clears` is whether the wait clears the event: the user event of a kqueue has EV_CLEAR, and the eventfd is
-- not read by its handler.
pub data Step (clears : Bool) (s : System) : System → Type 0 where
  push :
      (f : ℕ)
      → Step clears s (record s {
        pending_callbacks_ = s.pending_callbacks_ ++ f ∷ [];
        between = suc s.between;
        asked = s.asked ++ f ∷ [];
      })
  trigger : (n : ℕ) → s.between ≡ suc n → Step clears s (record s { triggered = true; between = n })
  wake :
      s.pc ≡ waiting
      → s.triggered ≡ true
      → Step clears s (record s { triggered = not clears; pc = woken })
  swap :
      s.pc ≡ woken
      → Step clears s (record s { pending_callbacks_ = []; pc = running s.pending_callbacks_ })
  call :
      (f : ℕ) (fs : List ℕ)
      → s.pc ≡ running (f ∷ fs)
      → Step clears s (record s { pc = running fs; ran = s.ran ++ f ∷ [] })
  return : s.pc ≡ running [] → Step clears s (record s { pc = waiting })

pub data Reach (clears : Bool) (s : System) : System → Type 0 where
  here : Reach clears s s
  next : {t u : System} → Reach clears s t → Step clears t u → Reach clears s u

-- Before the loop runs, and before any call.
abbrev pub start : System
start = record {
  pending_callbacks_ = [];
  triggered = false;
  between = 0;
  pc = waiting;
  ran = [];
  asked = [];
}
