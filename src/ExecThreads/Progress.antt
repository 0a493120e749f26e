-- ===== src/ExecThreads/Progress.antt =====
-- What is passed to `exec` runs in the end, when no call of `exec` is half done and no more is called.
use acpp_network.Prelude.{
  ℕ, ◌≡◌, refl, sym, ap, ◌∙◌, inl, inr, Bool, not, List, [], ◌∷◌, ◌++◌, arith, append_assoc,
  append-nil,
}
use acpp_network.ExecThreads.{
  LoopPc, waiting, woken, running, System, Step, push, trigger, wake, swap, call, return, Reach,
  start,
}
use acpp_network.ExecThreads.Wakeups.{held, WillLook, exec-Inv}

-- The steps that the loop takes; the others are those of the threads in `exec`.
abbrev pub IsLoop : {clears : Bool} {s t : System} → Step clears s t → Type 0
IsLoop (push f) = ⊥
IsLoop (trigger n h) = ⊥
IsLoop (wake h i) = Unit {0}
IsLoop (swap h) = Unit {0}
IsLoop (call f fs h) = Unit {0}
IsLoop (return h) = Unit {0}

-- The loop runs alone.
pub data Alone (clears : Bool) (s : System) : System → Type 0 where
  still : Alone clears s s
  then : {t u : System} → Alone clears s t → (st : Step clears t u) → IsLoop st → Alone clears s u

Alone-trans :
    {clears : Bool} {s t u : System} → Alone clears s t → Alone clears t u → Alone clears s u
Alone-trans r still = r
Alone-trans r (then q st l) = then (Alone-trans r q) st l

-- The loop comes back to its wait with these callbacks run, and nothing else has changed.
record Served (clears : Bool) (s : System) (fs : List ℕ) : Type 0 where
  last : System
  steps : Alone clears s last
  waits : last.pc ≡ waiting
  ran : last.ran ≡ s.ran ++ fs
  pending : last.pending_callbacks_ ≡ s.pending_callbacks_
  asked : last.asked ≡ s.asked
  triggered : last.triggered ≡ s.triggered
  between : last.between ≡ s.between

serve : (clears : Bool) (fs : List ℕ) (s : System) → s.pc ≡ running fs → Served clears s fs
serve clears [] s at_end = record {
  last = record s { pc = waiting };
  steps = then still (return at_end) tt;
  waits = refl;
  ran = sym (append-nil s.ran);
  pending = refl;
  asked = refl;
  triggered = refl;
  between = refl;
}
serve clears (f ∷ fs) s at_run =
    let t : System = record s { pc = running fs; ran = s.ran ++ f ∷ [] } in
    let v = serve clears fs t refl in
    record {
      last = v.last;
      steps = Alone-trans (then still (call f fs at_run) tt) v.steps;
      waits = v.waits;
      ran = v.ran ∙ append_assoc s.ran (f ∷ []) fs;
      pending = v.pending;
      asked = v.asked;
      triggered = v.triggered;
      between = v.between;
    }

-- By steps of the loop alone, all that was asked for has run.
abbrev pub Finishes : Bool → System → Type 0
Finishes clears s =
    (t : System) × Alone clears s t × (t.ran ≡ s.asked) × (t.pending_callbacks_ ≡ [])

from_woken :
    (clears : Bool) (s : System)
    → s.pc ≡ woken
    → s.asked ≡ s.ran ++ s.pending_callbacks_
    → Finishes clears s
from_woken clears s at_woken order =
    let t : System = record s { pending_callbacks_ = []; pc = running s.pending_callbacks_ } in
    let v = serve clears s.pending_callbacks_ t refl in
    (v.last, Alone-trans (then still (swap at_woken) tt) v.steps, v.ran ∙ sym order, v.pending)

from_waiting :
    (clears : Bool) (s : System)
    → s.pc ≡ waiting
    → s.between ≡ 0
    → s.asked ≡ s.ran ++ s.pending_callbacks_
    → WillLook s
    → Finishes clears s
from_waiting clears s at_wait idle order (inl e) =
    (s, still, sym (order ∙ ap (λ x. s.ran ++ x) e ∙ append-nil s.ran), e)
from_waiting clears s at_wait idle order (inr (inl set)) =
    let t : System = record s { triggered = not clears; pc = woken } in
    let f = from_woken clears t refl order in
    (f.0, Alone-trans (then still (wake at_wait set) tt) f.1, f.2, f.3)
from_waiting clears s at_wait idle order (inr (inr (inl e))) = absurd (cc)
from_waiting clears s at_wait idle order (inr (inr (inr e))) = absurd (omega arith)

-- The state after the last of what the loop held.
served_awake :
    (s t : System) (fs : List ℕ)
    → s.pc ≡ running fs
    → t.pending_callbacks_ ≡ s.pending_callbacks_
    → t.triggered ≡ s.triggered
    → s.between ≡ 0
    → WillLook s
    → WillLook t
served_awake s t fs at p r idle (inl e) = inl (p ∙ e)
served_awake s t fs at p r idle (inr (inl e)) = inr (inl (r ∙ e))
served_awake s t fs at p r idle (inr (inr (inl e))) = absurd (cc)
served_awake s t fs at p r idle (inr (inr (inr e))) = absurd (omega arith)

from_running :
    (clears : Bool) (fs : List ℕ) (s : System)
    → s.pc ≡ running fs
    → s.between ≡ 0
    → s.asked ≡ s.ran ++ (fs ++ s.pending_callbacks_)
    → WillLook s
    → Finishes clears s
from_running clears fs s at idle order awake =
    let v = serve clears fs s at in
    let order' : v.last.asked ≡ v.last.ran ++ v.last.pending_callbacks_ =
      v.asked
      ∙ order
      ∙ sym (append_assoc s.ran fs s.pending_callbacks_)
      ∙ sym (
          ap (λ x. x ++ v.last.pending_callbacks_) v.ran
          ∙ ap (λ x. (s.ran ++ fs) ++ x) v.pending) in
    let f =
      from_waiting clears v.last v.waits (v.between ∙ idle) order'
        (served_awake s v.last fs at v.pending v.triggered idle awake) in
    (f.0, Alone-trans v.steps f.1, f.2 ∙ v.asked, f.3)

from_pc :
    (clears : Bool) (p : LoopPc) (s : System)
    → s.pc ≡ p
    → s.between ≡ 0
    → s.asked ≡ s.ran ++ (held p ++ s.pending_callbacks_)
    → WillLook s
    → Finishes clears s
from_pc clears waiting s at idle order awake = from_waiting clears s at idle order awake
from_pc clears woken s at idle order awake = from_woken clears s at order
from_pc clears (running fs) s at idle order awake = from_running clears fs s at idle order awake

-- From every state that threads and loop reach, and in which no call of `exec` is between its push and its
-- trigger, there are steps that the loop takes alone, with no step of `exec`, to a state in which the queue is empty
-- and every callback that was pushed has run, in the order of the pushes.
pub exec-Finishes :
    (clears : Bool) (s : System) → Reach clears start s → s.between ≡ 0 → Finishes clears s
exec-Finishes clears s r idle =
    let v = exec-Inv clears s r in from_pc clears s.pc s refl idle v.0 v.1
