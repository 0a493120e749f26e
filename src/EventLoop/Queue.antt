-- ===== src/EventLoop/Queue.antt =====
-- The queue of `exec`: what one event of the loop runs, and what it leaves for the next.
use acpp_network.Prelude.{
  ℕ, ◌≡◌, refl, ap, sym, ◌∙◌, Bool, true, false, List, [], ◌∷◌, ◌++◌, Ensures, continue-Ensures,
  Ensures-mono, append_assoc, append-nil,
}
use mathlib.Core.Bool.{false≢true}
use acpp_network.Posix.{Fd}
use acpp_network.EventLoop.{
  Env, Do, do_exec, do_stop, Loop, after_trigger, trigger, push, exec, stop, do_one, do_all, call,
  call_all, handle_exec,
}

-- What the calls of a callback put into the queue.
abbrev pub asked : List Do → List ℕ
asked [] = []
asked (do_exec f ∷ ds) = f ∷ asked ds
asked (do_stop ∷ ds) = asked ds

abbrev pub asked_all : (ℕ → List Do) → List ℕ → List ℕ
asked_all calls [] = []
asked_all calls (f ∷ fs) = asked (calls f) ++ asked_all calls fs

-- A write to the eventfd succeeds: its counter is far from full.
abbrev pub Triggers : Env → Type 0
Triggers e = (fd : Fd) (n : ℕ) (k : e.Kernel) → (e.write_u64 fd n k).0 ≡ true

module _ (e : Env) (law : Triggers e) where
  -- From `m` to `m'`, the callbacks `fs` have run and `gs` have come to the queue, in order.
  pub record Served (fs gs : List ℕ) (m : Loop e) (u : Unit {0}) (m' : Loop e) : Type 0 where
    pub ran : m'.ran ≡ m.ran ++ fs
    pub queued : m'.io.pending_callbacks_ ≡ m.io.pending_callbacks_ ++ gs

  Served-none : (m : Loop e) → Served [] [] m tt m
  Served-none m = record {
    ran = sym (append-nil m.ran);
    queued = sym (append-nil m.io.pending_callbacks_);
  }

  Served-trans :
      (fs gs fs' gs' : List ℕ) (m m₁ m₂ : Loop e) (u u' : Unit {0})
      → Served fs gs m u m₁
      → Served fs' gs' m₁ u' m₂
      → Served (fs ++ fs') (gs ++ gs') m u' m₂
  Served-trans fs gs fs' gs' m m₁ m₂ u u' s t = record {
    ran = t.ran ∙ ap (λ x. x ++ fs') s.ran ∙ append_assoc m.ran fs fs';
    queued = t.queued ∙ ap (λ x. x ++ gs') s.queued ∙ append_assoc m.io.pending_callbacks_ gs gs';
  }

  after_trigger-Served :
      (f : ℕ) (x : Bool × e.Kernel) (m m' : Loop e)
      → x.0 ≡ true
      → Served [] (f ∷ []) m tt m'
      → Ensures (Served [] (f ∷ []) m) (after_trigger e x m')
  unfolding after_trigger
  after_trigger-Served f (true, k) m m' h s = record { ran = s.ran; queued = s.queued }
  after_trigger-Served f (false, k) m m' h s = absurd (false≢true h)

  exec-Served : (f : ℕ) (m : Loop e) → Ensures (Served [] (f ∷ []) m) (exec e f m)
  unfolding exec trigger push
  exec-Served f m =
      after_trigger-Served f _ m _ (law _ _ _)
        (record { ran = sym (append-nil m.ran); queued = refl })

  do_all-Served : (ds : List Do) (m : Loop e) → Ensures (Served [] (asked ds) m) (do_all e ds m)
  unfolding do_all do_one stop
  do_all-Served [] m = Served-none m
  do_all-Served (do_exec f ∷ ds) m =
      continue-Ensures (Served [] (f ∷ []) m) (Served [] (f ∷ asked ds) m) _ (exec e f m)
        (exec-Served f m)
        (λ u m₁ s.
          Ensures-mono (Served [] (asked ds) m₁) (Served [] (f ∷ asked ds) m) (do_all e ds m₁)
            (λ u' m₂ t. Served-trans [] (f ∷ []) [] (asked ds) m m₁ m₂ u u' s t)
            (do_all-Served ds m₁))
  do_all-Served (do_stop ∷ ds) m =
      Ensures-mono (Served [] (asked ds) (stop e m)) (Served [] (asked ds) m)
        (do_all e ds (stop e m)) (λ u m₂ t. record { ran = t.ran; queued = t.queued })
        (do_all-Served ds (stop e m))

  call-Served : (f : ℕ) (m : Loop e) → Ensures (Served (f ∷ []) (asked (e.calls f)) m) (call e f m)
  unfolding call
  call-Served f m =
      let m₁ : Loop e = record m { ran = m.ran ++ f ∷ [] } in
      Ensures-mono (Served [] (asked (e.calls f)) m₁) (Served (f ∷ []) (asked (e.calls f)) m)
        (do_all e (e.calls f) m₁)
        (λ u m₂ t. record { ran = t.ran ∙ append-nil (m.ran ++ f ∷ []); queued = t.queued })
        (do_all-Served (e.calls f) m₁)

  call_all-Served :
      (fs : List ℕ) (m : Loop e) → Ensures (Served fs (asked_all e.calls fs) m) (call_all e fs m)
  unfolding call_all
  call_all-Served [] m = Served-none m
  call_all-Served (f ∷ fs) m =
      continue-Ensures (Served (f ∷ []) (asked (e.calls f)) m)
        (Served (f ∷ fs) (asked_all e.calls (f ∷ fs)) m) _ (call e f m) (call-Served f m)
        (λ u m₁ s.
          Ensures-mono (Served fs (asked_all e.calls fs) m₁)
            (Served (f ∷ fs) (asked_all e.calls (f ∷ fs)) m) (call_all e fs m₁)
            (λ u' m₂ t.
              Served-trans (f ∷ []) (asked (e.calls f)) fs (asked_all e.calls fs) m m₁ m₂ u u' s t)
            (call_all-Served fs m₁))

  -- An event of `exec` returns, if writes to the eventfd succeed: every callback that was in the queue has
  -- run, once and in order, and the queue holds what those callbacks passed to `exec`, in order.
  pub handle_exec-Served :
      (m : Loop e)
      → Ensures
          (λ _ m'.
            (m'.ran ≡ m.ran ++ m.io.pending_callbacks_)
            × (m'.io.pending_callbacks_ ≡ asked_all e.calls m.io.pending_callbacks_))
          (handle_exec e m)
  unfolding handle_exec
  handle_exec-Served m =
      let m₀ : Loop e = record m { io = record (m.io) { pending_callbacks_ = [] } } in
      let fs = m.io.pending_callbacks_ in
      Ensures-mono (Served fs (asked_all e.calls fs) m₀) _ (call_all e fs m₀)
        (λ u m₁ s. (s.ran, s.queued)) (call_all-Served fs m₀)
