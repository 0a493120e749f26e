-- ===== src/MacLoop/Stale.antt =====
-- An event of a timer that an earlier callback of the same batch has destroyed or cancelled: the loop has the event
-- already, and takes it to be good.
use acpp_network.Prelude.{
  ℕ, ◌≡◌, ap, ◌∙◌, Bool, true, List, [], ◌∷◌, ◌++◌, Option, none, some, Result, throw, fault, ◌>>=◌,
  continue, arith, append_assoc, ◌==◌, if◌then◌else◌,
}
use acpp_network.MacLoop.{
  Env, Loop, TimerImpl, Event, timer_event, Do, do_cancel, do_destroy, dispatch, dispatch_all,
  handle_timer, call_timer, call, do_all, do_one, cancel, destroy, delete_timer, set_timer,
}

module _ (e : Env) (a b f milliseconds period : ℕ) (m : Loop e) where
  abbrev first : TimerImpl
  first = record { milliseconds_ = milliseconds; cb_ = some f }

  abbrev started : Loop e
  started = record m { ran = m.ran ++ f ∷ [] }

  -- The first timer's callback runs, and then the rest of the batch.
  after_first :
      (evs : List Event) (ds : List Do)
      → m.timers a ≡ some first
      → e.calls f ≡ ds
      → dispatch_all e (timer_event a ∷ evs) m ≡ (do_all e ds >>= λ _. dispatch_all e evs) started
  unfolding dispatch_all dispatch handle_timer call_timer call
  after_first evs ds at_a does =
      ap (λ o. continue (handle_timer e o m) (λ _. dispatch_all e evs)) at_a
      ∙ ap (λ x. continue (do_all e x started) (λ _. dispatch_all e evs)) does

  same_address : (b == b) ≡ true
  same_address = ground arith

  -- Where the callback of a timer destroys a timer whose event follows in the batch, the loop goes on to use the
  -- object that is gone.
  pub dispatch_all-destroyed :
      (cb : Option ℕ) (evs : List Event)
      → m.timers a ≡ some first
      → m.timers b ≡ some (record { milliseconds_ = period; cb_ = cb })
      → e.calls f ≡ do_destroy b ∷ []
      → (dispatch_all e (timer_event a ∷ timer_event b ∷ evs) m).0 ≡ throw fault
  unfolding dispatch_all dispatch handle_timer do_all do_one destroy delete_timer
  dispatch_all-destroyed cb evs at_a at_b does =
      let rest : Loop e → Result (Unit {0}) = λ m'. (dispatch_all e (timer_event b ∷ evs) m').0 in
      let gone : Loop e = record (delete_timer e b started) {
        timers = set_timer b none m.timers;
      } in
      ap (λ x. x.0) (after_first (timer_event b ∷ evs) (do_destroy b ∷ []) at_a does)
      ∙ ap (λ o. rest (destroy e b o started)) at_b
      ∙ ap
          (λ (t : Bool).
            (continue (handle_timer e (if t then none else m.timers b) gone)
              (λ _. dispatch_all e evs)).0)
          same_address

  -- Where the callback of a timer cancels a timer whose event follows in the batch, the callback of the cancelled
  -- timer is called all the same.
  pub dispatch_all-cancelled :
      (g : ℕ)
      → m.timers a ≡ some first
      → m.timers b ≡ some (record { milliseconds_ = period; cb_ = some g })
      → e.calls f ≡ do_cancel b ∷ []
      → e.calls g ≡ []
      → (dispatch_all e (timer_event a ∷ timer_event b ∷ []) m).1.ran ≡ m.ran ++ f ∷ g ∷ []
  unfolding dispatch_all dispatch handle_timer call_timer call do_all do_one cancel delete_timer
  dispatch_all-cancelled g at_a at_b does idle =
      let last : Loop e = record (delete_timer e b started) { ran = started.ran ++ g ∷ [] } in
      ap (λ x. x.1.ran) (after_first (timer_event b ∷ []) (do_cancel b ∷ []) at_a does)
      ∙ ap
          (λ o.
            (continue (continue (cancel e b o started) (λ _. do_all e []))
              (λ _. dispatch_all e (timer_event b ∷ []))).1.ran)
          at_b
      ∙ ap
          (λ o.
            (continue (handle_timer e o (delete_timer e b started)) (λ _. dispatch_all e [])).1.ran)
          at_b
      ∙ ap (λ ds. (continue (do_all e ds last) (λ _. dispatch_all e [])).1.ran) idle
      ∙ append_assoc m.ran (f ∷ []) (g ∷ [])
