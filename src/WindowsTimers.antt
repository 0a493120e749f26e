-- ===== src/WindowsTimers.antt =====
-- src/windows/socket_base.cpp: `timer` and `timer_impl`, over the timer queue of the system, which is a
-- parameter. A thread of the system calls `on_timer`, which passes a function to `exec`; the loop runs
-- it. The timers and their implementations are stores, by address; the memory of an implementation that was freed
-- may be given to another.
pub mod Accounts
pub mod Once
pub mod Cancelled
use acpp_network.Prelude.{
  ℕ, zero, suc, ◌≡◌, ◌+◌, ◌-◌, ◌%◌, ◌^◌, Bool, true, false, List, [], ◌∷◌, ◌++◌, Option, none, some,
  ℤ, pos, negsuc, if◌then◌else◌,
}
use acpp_network.AsyncSocket.{put}

-- CreateTimerQueueTimer with no period, for the parameter of `on_timer` and the time, and
-- DeleteTimerQueueTimer with no event. `Calls q p q'`: in `q` the system calls `on_timer` with `p`.
pub record TimerQueue : Type 1 where
  pub Queue : Type 0
  pub create_timer : ℕ → ℕ → Queue → ℕ × Queue
  pub delete_timer : ℕ → Queue → Queue
  pub Calls : Queue → ℕ → Queue → Type 0

-- `cb_` is whether the function is set. `serial` tells the implementations apart that have had one address: it is
-- the number of constructions before.
pub record TimerImpl : Type 0 where
  pub handle_ : ℕ
  pub milliseconds_ : ℤ
  pub cb_ : Bool
  pub parent_ : ℕ
  pub serial : ℕ

-- `running` is the implementations for which a thread of the system is in `on_timer`, before its `exec`;
-- `posted` is the implementations of the functions that `exec` has posted and the loop has not run.
-- `calls` is the serial numbers of the implementations whose callback was called, and `told` the timers that it was
-- given. `freed_used` is set by a use of an implementation that is freed, or of a null one: a run ends there.
pub record System (w : TimerQueue) : Type 0 where
  pub impls : ℕ → Option TimerImpl
  pub constructed : ℕ
  pub pimpl_ : ℕ → Option ℕ
  pub queue : w.Queue
  pub running : List ℕ
  pub posted : List ℕ
  pub calls : List ℕ
  pub told : List ℕ
  pub freed_used : Bool

-- The DWORD that an `int` is passed as.
pub dword : ℤ → ℕ
dword (pos n) = n % 2 ^ 32
dword (negsuc n) = 2 ^ 32 - suc (n % 2 ^ 32)

module _ (w : TimerQueue) where
  -- The constructors of `timer` and `timer_impl`, at an address `p` that `new` gives.
  unfoldable pub construct : ℕ → ℕ → ℤ → Bool → System w → System w
  construct t p milliseconds cb s =
      let (h, q) = w.create_timer p (dword milliseconds) s.queue in
      let i : TimerImpl = record {
        handle_ = h;
        milliseconds_ = milliseconds;
        cb_ = cb;
        parent_ = t;
        serial = s.constructed;
      } in
      record s {
        impls = put p (some i) s.impls;
        constructed = suc s.constructed;
        pimpl_ = put t (some p) s.pimpl_;
        queue = q;
      }

  unfoldable pub move_construct : ℕ → ℕ → System w → System w
  move_construct t other s = record s { pimpl_ = put other none (put t (s.pimpl_ other) s.pimpl_) }

  unfoldable pub free : Option ℕ → System w → System w
  free none s = s
  free (some p) s = record s { impls = put p none s.impls }

  -- The destructor frees the implementation, and does not delete the timer of the system.
  unfoldable pub destroy : ℕ → System w → System w
  destroy t s = record (free (s.pimpl_ t) s) { pimpl_ = put t none (free (s.pimpl_ t) s).pimpl_ }

  -- What is done with the implementation at an address.
  unfoldable pub on_impl :
      Option TimerImpl → (TimerImpl → System w → System w) → System w → System w
  on_impl none f s = record s { freed_used = true }
  on_impl (some i) f s = f i s

  unfoldable pub cancel_impl : TimerImpl → System w → System w
  cancel_impl i s = record s { queue = w.delete_timer i.handle_ s.queue }

  unfoldable pub cancel_at : Option ℕ → System w → System w
  cancel_at none s = record s { freed_used = true }
  cancel_at (some p) s = on_impl (s.impls p) cancel_impl s

  unfoldable pub cancel : ℕ → System w → System w
  cancel t s = cancel_at (s.pimpl_ t) s

  -- `exec` on the `io_` of the implementation; a function that could not be posted is dropped.
  unfoldable pub exec : ℕ → Bool → TimerImpl → System w → System w
  exec p success i s = if success then record s { posted = s.posted ++ p ∷ [] } else s

  unfoldable pub on_timer : ℕ → Bool → System w → System w
  on_timer p success s = on_impl (s.impls p) (exec p success) s

  -- The function that `on_timer` passed to `exec`.
  unfoldable pub call : TimerImpl → System w → System w
  call i s = if i.cb_ then record s { calls = i.serial ∷ s.calls; told = i.parent_ ∷ s.told } else s

  unfoldable pub run_posted : ℕ → System w → System w
  run_posted p s = on_impl (s.impls p) call s

  -- What the application does, with memory for a new implementation that no other has, a call of `on_timer` by the system, its `exec` in a thread of the system,
  -- and a function that the loop runs.
  pub data Step (s : System w) : System w → Type 0 where
    constructs :
        (t p : ℕ) (milliseconds : ℤ) (cb : Bool)
        → s.impls p ≡ none
        → Step s (construct t p milliseconds cb s)
    moves : (t other : ℕ) → Step s (move_construct t other s)
    destroys : (t : ℕ) → Step s (destroy t s)
    cancels : (t : ℕ) → Step s (cancel t s)
    fires :
        (p : ℕ) (q : w.Queue)
        → w.Calls s.queue p q
        → Step s (record s { queue = q; running = p ∷ s.running })
    posts :
        (p : ℕ) (success : Bool) (before after : List ℕ)
        → s.running ≡ before ++ p ∷ after
        → Step s (on_timer p success (record s { running = before ++ after }))
    runs :
        (p : ℕ) (before after : List ℕ)
        → s.posted ≡ before ++ p ∷ after
        → Step s (run_posted p (record s { posted = before ++ after }))

  pub data Reach (s : System w) : System w → Type 0 where
    here : Reach s s
    next : {t u : System w} → Reach s t → t.freed_used ≡ false → Step t u → Reach s u
