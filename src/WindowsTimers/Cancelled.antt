-- ===== src/WindowsTimers/Cancelled.antt =====
-- A timer of Windows that is cancelled before it has called does not call its callback.
use acpp_network.Prelude.{
  ℕ, ◌≡◌, refl, sym, ap, ◌∙◌, subst, ◌+◌, ◌≤◌, ◌<◌, ◌≢◌, Bool, true, List, [], ◌∷◌, ◌++◌, Option,
  none, some, ℤ, arith, if_cases, inl, inr,
}
use acpp_network.AsyncSocket.{put}
use acpp_network.AsyncSocket.Put.{put-cases}
use acpp_network.WindowsTimers.{
  TimerQueue, TimerImpl, System, dword, construct, move_construct, destroy, free, on_impl, cancel,
  cancel_at, cancel_impl, exec, on_timer, call, run_posted, Step, constructs, moves, destroys,
  cancels, fires, posts, runs, Reach, here, next,
}
use acpp_network.WindowsTimers.Accounts.{
  hit, count, count-append, count-taken, nothing, same_impl, hit-other, hit-same,
}
use acpp_network.WindowsTimers.Once.{TimerLaws, Once, under_way}

module _ (w : TimerQueue) (law : TimerLaws w) (n : ℕ) where
  -- Where the implementation of the serial number `n` is, its timer calls no more and nothing of it is on its way;
  -- and `c` calls of its callback were made.
  record IsQuiet (c : ℕ) (s : System w) : Type 0 where
    idle :
        (p g : ℕ) (i : TimerImpl) → s.impls p ≡ some i → i.serial ≡ n → ¬ (law.IsArmed g p s.queue)
    done : (p : ℕ) (i : TimerImpl) → s.impls p ≡ some i → i.serial ≡ n → under_way p s ≡ 0
    known : n < s.constructed
    called : count n s.calls ≡ c

  -- A step that makes no call and no implementation, has no more under way, and arms no timer.
  less-IsQuiet :
      (c : ℕ) (s t : System w)
      → IsQuiet c s
      → ((x : ℕ) (i : TimerImpl) → t.impls x ≡ some i → s.impls x ≡ some i)
      → t.constructed ≡ s.constructed
      → t.calls ≡ s.calls
      → ((x : ℕ) → under_way x t ≤ under_way x s)
      → ((g x : ℕ) → law.IsArmed g x t.queue → law.IsArmed g x s.queue)
      → IsQuiet c t
  less-IsQuiet c s t v kept number calls less arms = record {
    idle = λ p g i h e a. v.idle p g i (kept p i h) e (arms g p a);
    done = λ p i h e. omega (arith, less p, v.done p i (kept p i h) e);
    known = omega (arith, number, v.known);
    called = ap (count n) calls ∙ v.called;
  }

  on_impl-IsQuiet :
      (c : ℕ) (o : Option TimerImpl) (f : TimerImpl → System w → System w) (s : System w)
      → IsQuiet c s
      → ((i : TimerImpl) → o ≡ some i → IsQuiet c (f i s))
      → IsQuiet c (on_impl w o f s)
  unfolding on_impl
  on_impl-IsQuiet c none f s v h =
      less-IsQuiet c s (record s { freed_used = true }) v (λ x i k. k) refl refl (λ x. omega arith)
        (λ g x a. a)
  on_impl-IsQuiet c (some i) f s v h = h i refl

  destroy_at-IsQuiet :
      (c t : ℕ) (o : Option ℕ) (s : System w)
      → IsQuiet c s
      → IsQuiet c (record (free w o s) { pimpl_ = put t none (free w o s).pimpl_ })
  unfolding free
  destroy_at-IsQuiet c t none s v =
      less-IsQuiet c s (record s { pimpl_ = put t none s.pimpl_ }) v (λ x i k. k) refl refl
        (λ x. omega arith) (λ g x a. a)
  destroy_at-IsQuiet c t (some p) s v =
      less-IsQuiet c s (record s { impls = put p none s.impls; pimpl_ = put t none s.pimpl_ }) v
        (λ x i k. elim (put-cases p none s.impls x (some i) k) [
          | inl e ↦ absurd (nothing i none refl e.1)
          | inr e ↦ e.1
        ])
        refl refl (λ x. omega arith) (λ g x a. a)

  cancel_at-IsQuiet :
      (c : ℕ) (o : Option ℕ) (s : System w) → IsQuiet c s → IsQuiet c (cancel_at w o s)
  unfolding cancel_at cancel_impl
  cancel_at-IsQuiet c none s v =
      less-IsQuiet c s (record s { freed_used = true }) v (λ x i k. k) refl refl (λ x. omega arith)
        (λ g x a. a)
  cancel_at-IsQuiet c (some p) s v = on_impl-IsQuiet c (s.impls p) (cancel_impl w) s v (λ i e.
      less-IsQuiet c s (cancel_impl w i s) v (λ x j k. k) refl refl (λ x. omega arith)
        (λ g x. law.delete_others i.handle_ g x s.queue))

  construct-IsQuiet :
      (c t p : ℕ) (ms : ℤ) (cb : Bool) (s : System w)
      → IsQuiet c s
      → IsQuiet c (construct w t p ms cb s)
  unfolding construct
  construct-IsQuiet c t p ms cb s v =
      let i₀ : TimerImpl = record {
        handle_ = (w.create_timer p (dword ms) s.queue).0;
        milliseconds_ = ms;
        cb_ = cb;
        parent_ = t;
        serial = s.constructed;
      } in
      let before : (x : ℕ) (i : TimerImpl)
          → put p (some i₀) s.impls x ≡ some i
          → i.serial ≡ n
          → (p ≢ x) × (s.impls x ≡ some i) =
        λ x i k e. elim (put-cases p (some i₀) s.impls x (some i) k) [
          | inl f ↦
              absurd
                (omega (arith, ap (λ (j : TimerImpl). j.serial) (same_impl i₀ i f.1), e, v.known))
          | inr f ↦ f
        ] in
      record {
        idle = λ x g i k e a. elim (law.create_new p (dword ms) g x s.queue a) [
          | inl b ↦ (before x i k e).0 b.1
          | inr b ↦ v.idle x g i (before x i k e).1 e b
        ];
        done = λ x i k e. v.done x i (before x i k e).1 e;
        known = omega (arith, v.known);
        called = v.called;
      }

  -- The system calls for another implementation.
  fire-IsQuiet :
      (c x : ℕ) (q : w.Queue) (s : System w)
      → w.Calls s.queue x q
      → IsQuiet c s
      → IsQuiet c (record s { queue = q; running = x ∷ s.running })
  fire-IsQuiet c x q s k v =
      let was = law.call_armed s.queue q x k in
      let other : (p : ℕ) (i : TimerImpl) → s.impls p ≡ some i → i.serial ≡ n → p ≢ x = λ p i h e f.
        v.idle p was.0 i h e (subst (λ y. law.IsArmed was.0 y s.queue) (sym f) was.1) in
      record {
        idle = λ p g i h e a. v.idle p g i h e (law.call_others s.queue q x g p k a);
        done = λ p i h e. omega (arith, hit-other p x (other p i h e), v.done p i h e);
        known = v.known;
        called = v.called;
      }

  post-IsQuiet :
      (c x : ℕ) (success : Bool) (before after : List ℕ) (s : System w)
      → s.running ≡ before ++ x ∷ after
      → IsQuiet c s
      → IsQuiet c (on_timer w x success (record s { running = before ++ after }))
  unfolding on_timer exec
  post-IsQuiet c x success before after s e v =
      let r : System w = record s { running = before ++ after } in
      let taken : (y : ℕ) → count y s.running ≡ hit y x + count y (before ++ after) =
        λ y. ap (count y) e ∙ count-taken y x before after in
      let u : IsQuiet c r =
        less-IsQuiet c s r v (λ y i k. k) refl refl (λ y. omega (arith, taken y)) (λ g y a. a) in
      on_impl-IsQuiet c (s.impls x) (exec w x success) r u (λ i h.
        if_cases (IsQuiet c) success
          (λ posted.
            less-IsQuiet c s (record r { posted = s.posted ++ x ∷ [] }) v (λ y j k. k) refl refl
              (λ y. omega (arith, taken y, count-append y s.posted (x ∷ []))) (λ g y a. a))
          (λ fails. u))

  run-IsQuiet :
      (c x : ℕ) (before after : List ℕ) (s : System w)
      → s.posted ≡ before ++ x ∷ after
      → IsQuiet c s
      → IsQuiet c (run_posted w x (record s { posted = before ++ after }))
  unfolding run_posted call
  run-IsQuiet c x before after s e v =
      let r : System w = record s { posted = before ++ after } in
      let taken : (y : ℕ) → count y s.posted ≡ hit y x + count y (before ++ after) =
        λ y. ap (count y) e ∙ count-taken y x before after in
      let u : IsQuiet c r =
        less-IsQuiet c s r v (λ y i k. k) refl refl (λ y. omega (arith, taken y)) (λ g y a. a) in
      on_impl-IsQuiet c (s.impls x) (call w) r u (λ i h.
        if_cases (IsQuiet c) i.cb_
          (λ set.
            let other : n ≢ i.serial =
              λ f. omega (arith, v.done x i h (sym f), taken x, hit-same x) in
            record {
              idle = u.idle;
              done = u.done;
              known = u.known;
              called = omega (arith, hit-other n i.serial other, v.called);
            })
          (λ unset. u))

  step-IsQuiet : (c : ℕ) (s t : System w) → Step w s t → IsQuiet c s → IsQuiet c t
  unfolding cancel destroy move_construct
  step-IsQuiet c s _ (constructs t p ms cb h) v = construct-IsQuiet c t p ms cb s v
  step-IsQuiet c s _ (moves t other) v =
      less-IsQuiet c s _ v (λ x i k. k) refl refl (λ x. omega arith) (λ g x a. a)
  step-IsQuiet c s _ (destroys t) v = destroy_at-IsQuiet c t (s.pimpl_ t) s v
  step-IsQuiet c s _ (cancels t) v = cancel_at-IsQuiet c (s.pimpl_ t) s v
  step-IsQuiet c s _ (fires x q k) v = fire-IsQuiet c x q s k v
  step-IsQuiet c s _ (posts x success before after e) v =
      post-IsQuiet c x success before after s e v
  step-IsQuiet c s _ (runs x before after e) v = run-IsQuiet c x before after s e v

  Reach-IsQuiet : (c : ℕ) (s t : System w) → Reach w s t → IsQuiet c s → IsQuiet c t
  Reach-IsQuiet c s _ here v = v
  Reach-IsQuiet c s t (next r h st) v = step-IsQuiet c _ _ st (Reach-IsQuiet c s _ r v)

module _ (w : TimerQueue) (law : TimerLaws w) where
  cancelled-IsQuiet :
      (t p : ℕ) (i : TimerImpl) (s : System w)
      → Once w law s
      → s.pimpl_ t ≡ some p
      → s.impls p ≡ some i
      → under_way p s ≡ 0
      → IsQuiet w law i.serial (count i.serial s.calls) (cancel w t s)
  unfolding cancel cancel_at cancel_impl on_impl
  cancelled-IsQuiet t p i s v at held none_on_way =
      let Q = IsQuiet w law i.serial (count i.serial s.calls) in
      let here_only : (x : ℕ) (j : TimerImpl) → s.impls x ≡ some j → j.serial ≡ i.serial → x ≡ p =
        λ x j k e. v.distinct x p j i k held e in
      subst (λ o. Q (cancel_at w o s)) (sym at)
        (subst (λ o. Q (on_impl w o (cancel_impl w) s)) (sym held)
          (record {
            idle = λ x g j k e a.
                let armed = law.delete_others i.handle_ g x s.queue a in
                let same =
                  (v.armed p i g held
                    (subst (λ y. law.IsArmed g y s.queue) (here_only x j k e) armed)).0 in
                law.delete_stops i.handle_ x s.queue
                  (subst (λ h. law.IsArmed h x (w.delete_timer i.handle_ s.queue)) same a);
            done = λ x j k e. ap (λ y. under_way y s) (here_only x j k e) ∙ none_on_way;
            known = v.old p i held;
            called = refl;
          }))

  -- A timer that is cancelled while no call of `on_timer` for it is in a thread of the system or waits in the
  -- port: from then on, whatever the application does, and in whatever order the system calls, its threads post
  -- and the loop runs what was posted, the callback of that construction is called no more, though freed memory
  -- may be used again. The state before satisfies the invariant that every careful step keeps.
  pub cancel-silent :
      (t p : ℕ) (i : TimerImpl) (s u : System w)
      → Once w law s
      → s.pimpl_ t ≡ some p
      → s.impls p ≡ some i
      → under_way p s ≡ 0
      → Reach w (cancel w t s) u
      → count i.serial u.calls ≡ count i.serial s.calls
  cancel-silent t p i s u v at held none_on_way r =
      let q =
        Reach-IsQuiet w law i.serial (count i.serial s.calls) (cancel w t s) u r
          (cancelled-IsQuiet t p i s v at held none_on_way) in
      q.called
