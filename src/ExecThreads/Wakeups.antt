-- ===== src/ExecThreads/Wakeups.antt =====
-- No wakeup of the loop is lost, and the callbacks run in the order of the pushes.
use acpp_network.Prelude.{
  ℕ, ◌<◌, ◌≡◌, refl, sym, ap, ◌∙◌, ◌⊎◌, inl, inr, Bool, true, List, [], ◌∷◌, ◌++◌, arith,
  append_assoc, append-nil,
}
use acpp_network.ExecThreads.{
  LoopPc, waiting, woken, running, System, Step, push, trigger, wake, swap, call, return, Reach,
  here, next, start,
}

-- What the loop has taken and not called.
abbrev pub held : LoopPc → List ℕ
held waiting = []
held woken = []
held (running fs) = fs

-- The queue is empty, or the loop is woken or will be: the event is set, or a call of `exec` is about to set it.
abbrev pub WillLook : System → Type 0
WillLook s = (s.pending_callbacks_ ≡ []) ⊎ (s.triggered ≡ true) ⊎ (s.pc ≡ woken) ⊎ (0 < s.between)

pub record Inv (s : System) : Type 0 where
  pub order : s.asked ≡ s.ran ++ (held s.pc ++ s.pending_callbacks_)
  pub awake : WillLook s

-- A loop that is calling what it took is not the one that will look.
still_awake :
    (s : System) (fs : List ℕ) (p : LoopPc)
    → s.pc ≡ running fs
    → WillLook s
    → (s.pending_callbacks_ ≡ []) ⊎ (s.triggered ≡ true) ⊎ (p ≡ woken) ⊎ (0 < s.between)
still_awake s fs p at_run (inl e) = inl e
still_awake s fs p at_run (inr (inl e)) = inr (inl e)
still_awake s fs p at_run (inr (inr (inl e))) = absurd (cc)
still_awake s fs p at_run (inr (inr (inr e))) = inr (inr (inr e))

Step-Inv : {clears : Bool} {s t : System} → Step clears s t → Inv s → Inv t
Step-Inv {s = s} (push f) v = record {
  order =
      ap (λ x. x ++ f ∷ []) v.order
      ∙ append_assoc s.ran (held s.pc ++ s.pending_callbacks_) (f ∷ [])
      ∙ ap (λ x. s.ran ++ x) (append_assoc (held s.pc) s.pending_callbacks_ (f ∷ []));
  awake = inr (inr (inr (omega arith)));
}
Step-Inv (trigger n e) v = record { order = v.order; awake = inr (inl refl) }
Step-Inv {s = s} (wake at_wait set) v = record {
  order = v.order ∙ ap (λ p. s.ran ++ (held p ++ s.pending_callbacks_)) at_wait;
  awake = inr (inr (inl refl));
}
Step-Inv {s = s} (swap at_woken) v = record {
  order =
      v.order
      ∙ ap (λ p. s.ran ++ (held p ++ s.pending_callbacks_)) at_woken
      ∙ ap (λ x. s.ran ++ x) (sym (append-nil s.pending_callbacks_));
  awake = inl refl;
}
Step-Inv {s = s} (call f fs at_run) v = record {
  order =
      v.order
      ∙ ap (λ p. s.ran ++ (held p ++ s.pending_callbacks_)) at_run
      ∙ sym (append_assoc s.ran (f ∷ []) (fs ++ s.pending_callbacks_));
  awake = still_awake s (f ∷ fs) (running fs) at_run v.awake;
}
Step-Inv {s = s} (return at_end) v = record {
  order = v.order ∙ ap (λ p. s.ran ++ (held p ++ s.pending_callbacks_)) at_end;
  awake = still_awake s [] waiting at_end v.awake;
}

start-Inv : Inv start
start-Inv = record { order = refl; awake = inl refl }

Reach-Inv : {clears : Bool} {s t : System} → Inv s → Reach clears s t → Inv t
Reach-Inv v here = v
Reach-Inv v (next r st) = Step-Inv st (Reach-Inv v r)

-- In every state that threads and loop reach, in whatever order they step and whether the wait clears the
-- event or not: the callbacks that were pushed are, in order, those that have run, those that the loop holds
-- and those in the queue; and where the queue is not empty, the event is set, or the loop is on its way to
-- the queue, or a call of `exec` has yet to set the event.
pub exec-Inv :
    (clears : Bool) (s : System)
    → Reach clears start s
    → (s.asked ≡ s.ran ++ (held s.pc ++ s.pending_callbacks_)) × WillLook s
exec-Inv clears s r = let v = Reach-Inv start-Inv r in (v.order, v.awake)
