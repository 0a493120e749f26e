-- ===== src/WindowsTimers/Once.antt =====
-- A timer of Windows calls its callback once: what the system promises of its timer queue, the accounts of a
-- timer, and that every step keeps them.
use acpp_network.Prelude.{
  ℕ, ◌≡◌, refl, sym, ap, ◌∙◌, subst, ◌+◌, ◌≤◌, ◌<◌, ◌⊎◌, inl, inr, ◌≢◌, Bool, true, List, [], ◌∷◌,
  ◌++◌, Option, none, some, ℤ, arith, if_cases,
}
use acpp_network.AsyncSocket.{put}
use acpp_network.AsyncSocket.Put.{put-cases}
use acpp_network.WindowsTimers.Accounts.{
  hit, count, count-append, count-taken, same-cases, nothing, same_impl, hit-most, hit-same,
  hit-other,
}
use acpp_network.WindowsTimers.{
  TimerQueue, TimerImpl, System, dword, construct, move_construct, destroy, free, on_impl, cancel,
  cancel_at, cancel_impl, exec, on_timer, call, run_posted, Step, constructs, moves, destroys,
  cancels, fires, posts, runs, Reach, here, next,
}

-- What the system promises. `IsArmed h p q`: the timer of the handle `h` can still call, with `p`. A timer with no
-- period calls once, and one that is deleted does not call from then on.
pub record TimerLaws (w : TimerQueue) : Type 1 where
  pub IsArmed : ℕ → ℕ → w.Queue → Type 0
  pub call_armed :
      (q q' : w.Queue) (p : ℕ) → w.Calls q p q' → (h : ℕ) × IsArmed h p q × ¬ (IsArmed h p q')
  pub call_others : (q q' : w.Queue) (p g x : ℕ) → w.Calls q p q' → IsArmed g x q' → IsArmed g x q
  pub create_new :
      (p ms g x : ℕ) (q : w.Queue)
      → IsArmed g x (w.create_timer p ms q).1
      → ((g ≡ (w.create_timer p ms q).0) × (p ≡ x)) ⊎ IsArmed g x q
  pub delete_stops : (h x : ℕ) (q : w.Queue) → ¬ (IsArmed h x (w.delete_timer h q))
  pub delete_others : (h g x : ℕ) (q : w.Queue) → IsArmed g x (w.delete_timer h q) → IsArmed g x q

-- What is on its way to the callback at an address: in a thread of the system, or in the port.
abbrev pub under_way : {w : TimerQueue} → ℕ → System w → ℕ
under_way p s = count p s.posted + count p s.running

-- With the calls that were made for the implementation there.
abbrev pub total : {w : TimerQueue} → ℕ → TimerImpl → System w → ℕ
total p i s = count i.serial s.calls + under_way p s

module _ (w : TimerQueue) (law : TimerLaws w) where
  pub record Once (s : System w) : Type 0 where
    pub once : (n : ℕ) → count n s.calls ≤ 1
    pub fresh : (n : ℕ) → s.constructed ≤ n → count n s.calls ≡ 0
    pub at_most : (p : ℕ) (i : TimerImpl) → s.impls p ≡ some i → total p i s ≤ 1
    pub armed :
        (p : ℕ) (i : TimerImpl) (g : ℕ)
        → s.impls p ≡ some i
        → law.IsArmed g p s.queue
        → (g ≡ i.handle_) × (total p i s ≡ 0)
    pub old : (p : ℕ) (i : TimerImpl) → s.impls p ≡ some i → i.serial < s.constructed
    pub idle : (p : ℕ) → s.impls p ≡ none → under_way p s ≡ 0
    pub unarmed : (p g : ℕ) → s.impls p ≡ none → ¬ (law.IsArmed g p s.queue)
    pub distinct :
        (p q : ℕ) (i j : TimerImpl)
        → s.impls p ≡ some i
        → s.impls q ≡ some j
        → i.serial ≡ j.serial
        → p ≡ q

  -- A step on the same implementations that makes no call, has no more under way, and arms no timer.
  less-Once :
      (s t : System w)
      → Once s
      → t.impls ≡ s.impls
      → t.constructed ≡ s.constructed
      → t.calls ≡ s.calls
      → ((x : ℕ) → under_way x t ≤ under_way x s)
      → ((g x : ℕ) → law.IsArmed g x t.queue → law.IsArmed g x s.queue)
      → Once t
  less-Once s t v impls number calls less arms =
      let at =
        λ (x : ℕ) (o : Option TimerImpl) (h : t.impls x ≡ o). ap (λ f. f x) (sym impls) ∙ h in
      record {
        once = λ n. omega (arith, ap (count n) calls, v.once n);
        fresh = λ n h. ap (count n) calls ∙ v.fresh n (omega (arith, number));
        at_most = λ p i h.
            omega (arith, ap (count i.serial) calls, less p, v.at_most p i (at p (some i) h));
        armed = λ p i g h a.
            let k = v.armed p i g (at p (some i) h) (arms g p a) in
            (k.0, omega (arith, ap (count i.serial) calls, less p, k.1));
        old = λ p i h. omega (arith, number, v.old p i (at p (some i) h));
        idle = λ p h. omega (arith, less p, v.idle p (at p none h));
        unarmed = λ p g h a. v.unarmed p g (at p none h) (arms g p a);
        distinct = λ p q i j h k e. v.distinct p q i j (at p (some i) h) (at q (some j) k) e;
      }

  on_impl-Once :
      (o : Option TimerImpl) (f : TimerImpl → System w → System w) (s : System w)
      → Once s
      → ((i : TimerImpl) → o ≡ some i → Once (f i s))
      → Once (on_impl w o f s)
  unfolding on_impl
  on_impl-Once none f s v h =
      less-Once s (record s { freed_used = true }) v refl refl refl (λ x. omega arith) (λ g x a. a)
  on_impl-Once (some i) f s v h = h i refl

  construct-Once :
      (t p : ℕ) (ms : ℤ) (cb : Bool) (s : System w)
      → s.impls p ≡ none
      → Once s
      → Once (construct w t p ms cb s)
  unfolding construct
  construct-Once t p ms cb s free_at v =
      let (h, q) = w.create_timer p (dword ms) s.queue in
      let n = s.constructed in
      let i₀ : TimerImpl = record {
        handle_ = h;
        milliseconds_ = ms;
        cb_ = cb;
        parent_ = t;
        serial = n;
      } in
      let split = λ (x : ℕ) (r : Option TimerImpl) (k : put p (some i₀) s.impls x ≡ r).
        put-cases p (some i₀) s.impls x r k in
      let serial_of : (i : TimerImpl) → some i₀ ≡ some i → n ≡ i.serial =
        λ i k. ap (λ (j : TimerImpl). j.serial) (same_impl i₀ i k) in
      let none_made : count n s.calls ≡ 0 = v.fresh n (omega arith) in
      let none_there : under_way p s ≡ 0 = v.idle p free_at in
      let zero_at : (x : ℕ) (i : TimerImpl) → p ≡ x → some i₀ ≡ some i → total x i s ≡ 0 =
        λ x i e k. omega (
          arith,
          ap (λ m. count m s.calls) (serial_of i k),
          none_made,
          ap (λ y. under_way y s) e,
          none_there,
        ) in
      record {
        once = v.once;
        fresh = λ m k. v.fresh m (omega arith);
        at_most = λ x i k. elim (split x (some i) k) [
          | inl e ↦ omega (arith, zero_at x i e.0 e.1)
          | inr e ↦ v.at_most x i e.1
        ];
        armed = λ x i g k a. elim (split x (some i) k) [
          | inl e ↦ elim (law.create_new p (dword ms) g x s.queue a) [
            | inl b ↦
                (b.0 ∙ ap (λ (j : TimerImpl). j.handle_) (same_impl i₀ i e.1), zero_at x i e.0 e.1)
            | inr b ↦
                absurd (v.unarmed p g free_at (subst (λ y. law.IsArmed g y s.queue) (sym e.0) b))
          ]
          | inr e ↦ elim (law.create_new p (dword ms) g x s.queue a) [
            | inl b ↦ absurd (e.0 b.1)
            | inr b ↦ v.armed x i g e.1 b
          ]
        ];
        old = λ x i k. elim (split x (some i) k) [
          | inl e ↦ omega (arith, serial_of i e.1)
          | inr e ↦ omega (arith, v.old x i e.1)
        ];
        idle = λ x k. elim (split x none k) [
          | inl e ↦ absurd (nothing i₀ none refl (sym e.1))
          | inr e ↦ v.idle x e.1
        ];
        unarmed = λ x g k a. elim (split x none k) [
          | inl e ↦ nothing i₀ none refl (sym e.1)
          | inr e ↦ elim (law.create_new p (dword ms) g x s.queue a) [
            | inl b ↦ e.0 b.1
            | inr b ↦ v.unarmed x g e.1 b
          ]
        ];
        distinct = λ x y i j k l m. elim (split x (some i) k) [
          | inl e ↦ elim (split y (some j) l) [
            | inl f ↦ sym e.0 ∙ f.0
            | inr f ↦ absurd (omega (arith, serial_of i e.1, v.old y j f.1, m))
          ]
          | inr e ↦ elim (split y (some j) l) [
            | inl f ↦ absurd (omega (arith, serial_of j f.1, v.old x i e.1, m))
            | inr f ↦ v.distinct x y i j e.1 f.1 m
          ]
        ];
      }

  -- An implementation may be freed when its timer cannot call and nothing of it is on its way.
  abbrev pub IsDone : System w → ℕ → Type 0
  IsDone s p = ((g : ℕ) → ¬ (law.IsArmed g p s.queue)) × (under_way p s ≡ 0)

  destroy_at-Once :
      (t : ℕ) (o : Option ℕ) (s : System w)
      → ((p : ℕ) → o ≡ some p → IsDone s p)
      → Once s
      → Once (record (free w o s) { pimpl_ = put t none (free w o s).pimpl_ })
  unfolding free
  destroy_at-Once t none s d v =
      less-Once s (record s { pimpl_ = put t none s.pimpl_ }) v refl refl refl (λ x. omega arith)
        (λ g x a. a)
  destroy_at-Once t (some p) s d v =
      let kept : (x : ℕ) (i : TimerImpl) → put p none s.impls x ≡ some i → s.impls x ≡ some i =
        λ x i k. elim (put-cases p none s.impls x (some i) k) [
          | inl e ↦ absurd (nothing i none refl e.1)
          | inr e ↦ e.1
        ] in
      let done = d p refl in
      record {
        once = v.once;
        fresh = v.fresh;
        at_most = λ x i k. v.at_most x i (kept x i k);
        armed = λ x i g k a. v.armed x i g (kept x i k) a;
        old = λ x i k. v.old x i (kept x i k);
        idle = λ x k. elim (put-cases p none s.impls x none k) [
          | inl e ↦ ap (λ y. under_way y s) (sym e.0) ∙ done.1
          | inr e ↦ v.idle x e.1
        ];
        unarmed = λ x g k a. elim (put-cases p none s.impls x none k) [
          | inl e ↦ done.0 g (subst (λ y. law.IsArmed g y s.queue) (sym e.0) a)
          | inr e ↦ v.unarmed x g e.1 a
        ];
        distinct = λ x y i j k l m. v.distinct x y i j (kept x i k) (kept y j l) m;
      }

  cancel_at-Once : (o : Option ℕ) (s : System w) → Once s → Once (cancel_at w o s)
  unfolding cancel_at cancel_impl
  cancel_at-Once none s v =
      less-Once s (record s { freed_used = true }) v refl refl refl (λ x. omega arith) (λ g x a. a)
  cancel_at-Once (some p) s v = on_impl-Once (s.impls p) (cancel_impl w) s v (λ i e.
      less-Once s (cancel_impl w i s) v refl refl refl (λ x. omega arith)
        (λ g x. law.delete_others i.handle_ g x s.queue))

  -- The account of the address grows by one; its timer has called, and is armed no more.
  fire-Once :
      (p : ℕ) (q : w.Queue) (s : System w)
      → w.Calls s.queue p q
      → Once s
      → Once (record s { queue = q; running = p ∷ s.running })
  fire-Once p q s c v =
      let was = law.call_armed s.queue q p c in
      let arms = λ (g x : ℕ). law.call_others s.queue q p g x c in
      let there : (x : ℕ) → s.impls x ≡ none → x ≢ p =
        λ x k e. v.unarmed x was.0 k (subst (λ y. law.IsArmed was.0 y s.queue) (sym e) was.1) in
      let known : (x : ℕ) (i : TimerImpl)
          → s.impls x ≡ some i
          → x ≡ p
          → (was.0 ≡ i.handle_) × (total x i s ≡ 0) =
        λ x i k e. v.armed x i was.0 k (subst (λ y. law.IsArmed was.0 y s.queue) (sym e) was.1) in
      record {
        once = v.once;
        fresh = v.fresh;
        at_most = λ x i k. elim (same-cases x p) [
          | inl e ↦ omega (arith, hit-most x p, (known x i k e).1)
          | inr ne ↦ omega (arith, hit-other x p ne, v.at_most x i k)
        ];
        armed = λ x i g k a. elim (same-cases x p) [
          | inl e ↦
              let same = (v.armed x i g k (arms g x a)).0 ∙ sym (known x i k e).0 in
              absurd
                (was.2 (subst (λ y. law.IsArmed y p q) same (subst (λ y. law.IsArmed g y q) e a)))
          | inr ne ↦
              let b = v.armed x i g k (arms g x a) in (b.0, omega (arith, hit-other x p ne, b.1))
        ];
        old = v.old;
        idle = λ x k. omega (arith, hit-other x p (there x k), v.idle x k);
        unarmed = λ x g k a. v.unarmed x g k (arms g x a);
        distinct = v.distinct;
      }

  post-Once :
      (p : ℕ) (success : Bool) (before after : List ℕ) (s : System w)
      → s.running ≡ before ++ p ∷ after
      → Once s
      → Once (on_timer w p success (record s { running = before ++ after }))
  unfolding on_timer exec
  post-Once p success before after s e v =
      let r : System w = record s { running = before ++ after } in
      let taken : (x : ℕ) → count x s.running ≡ hit x p + count x (before ++ after) =
        λ x. ap (count x) e ∙ count-taken x p before after in
      let u : Once r = less-Once s r v refl refl refl (λ x. omega (arith, taken x)) (λ g x a. a) in
      on_impl-Once (s.impls p) (exec w p success) r u (λ i h.
        if_cases Once success
          (λ posted.
            less-Once s (record r { posted = s.posted ++ p ∷ [] }) v refl refl refl
              (λ x. omega (arith, taken x, count-append x s.posted (p ∷ []))) (λ g x a. a))
          (λ fails. u))

  -- What was in the port for `p` becomes a call for the implementation there.
  call-Once :
      (p : ℕ) (i : TimerImpl) (rest : List ℕ) (s : System w)
      → s.impls p ≡ some i
      → ((x : ℕ) → count x s.posted ≡ hit x p + count x rest)
      → Once s
      → Once (record s { posted = rest; calls = i.serial ∷ s.calls; told = i.parent_ ∷ s.told })
  call-Once p i rest s h taken v =
      let n = i.serial in
      let most = v.at_most p i h in
      let same_total : (x : ℕ) (j : TimerImpl)
          → s.impls x ≡ some j
          → (hit j.serial n + count j.serial s.calls) + (count x rest + count x s.running)
            ≤ total x j s =
        λ x j k. elim (same-cases j.serial n) [
          | inl e ↦ omega (
            arith,
            hit-most j.serial n,
            taken x,
            ap (λ y. hit y p) (v.distinct x p j i k h e),
            hit-same p,
          )
          | inr ne ↦ omega (arith, hit-other j.serial n ne, taken x)
        ] in
      record {
        once = λ m. elim (same-cases m n) [
          | inl e ↦
              omega (arith, hit-most m n, ap (λ y. count y s.calls) e, most, taken p, hit-same p)
          | inr ne ↦ omega (arith, hit-other m n ne, v.once m)
        ];
        fresh = λ m k. omega (arith, hit-other m n (λ e. omega (arith, v.old p i h)), v.fresh m k);
        at_most = λ x j k. omega (arith, same_total x j k, v.at_most x j k);
        armed =
            λ x j g k a. let b = v.armed x j g k a in (b.0, omega (arith, same_total x j k, b.1));
        old = v.old;
        idle = λ x k. omega (arith, taken x, v.idle x k);
        unarmed = v.unarmed;
        distinct = v.distinct;
      }

  run-Once :
      (p : ℕ) (before after : List ℕ) (s : System w)
      → s.posted ≡ before ++ p ∷ after
      → Once s
      → Once (run_posted w p (record s { posted = before ++ after }))
  unfolding run_posted call
  run-Once p before after s e v =
      let r : System w = record s { posted = before ++ after } in
      let taken : (x : ℕ) → count x s.posted ≡ hit x p + count x (before ++ after) =
        λ x. ap (count x) e ∙ count-taken x p before after in
      let u : Once r = less-Once s r v refl refl refl (λ x. omega (arith, taken x)) (λ g x a. a) in
      on_impl-Once (s.impls p) (call w) r u (λ i h.
        if_cases Once i.cb_ (λ set. call-Once p i (before ++ after) s h taken v) (λ unset. u))

  -- The application frees only implementations that are done.
  abbrev pub IsCareful : (s t : System w) → Step w s t → Type 0
  IsCareful s t (destroys a) = (p : ℕ) → s.pimpl_ a ≡ some p → IsDone s p
  IsCareful s t (constructs a p ms cb h) = Unit {0}
  IsCareful s t (moves a b) = Unit {0}
  IsCareful s t (cancels a) = Unit {0}
  IsCareful s t (fires p q c) = Unit {0}
  IsCareful s t (posts p success before after e) = Unit {0}
  IsCareful s t (runs p before after e) = Unit {0}

  abbrev pub AllCareful : {s t : System w} → Reach w s t → Type 0
  AllCareful here = Unit {0}
  AllCareful (next r h st) = AllCareful r × IsCareful _ _ st

  step-Once : (s t : System w) (st : Step w s t) → IsCareful s t st → Once s → Once t
  unfolding destroy cancel move_construct
  step-Once s _ (constructs t p ms cb h) d v = construct-Once t p ms cb s h v
  step-Once s _ (moves t other) d v = less-Once s _ v refl refl refl (λ x. omega arith) (λ g x a. a)
  step-Once s _ (destroys t) d v = destroy_at-Once t (s.pimpl_ t) s d v
  step-Once s _ (cancels t) d v = cancel_at-Once (s.pimpl_ t) s v
  step-Once s _ (fires p q c) d v = fire-Once p q s c v
  step-Once s _ (posts p success before after e) d v = post-Once p success before after s e v
  step-Once s _ (runs p before after e) d v = run-Once p before after s e v

  -- Where the application destroys a timer only when the timer of the system cannot call and nothing of it is on its
  -- way, though freed memory may be used again: whatever the application constructs, moves, destroys and
  -- cancels, and in whatever order the system calls, its threads post and the loop runs what was posted, the
  -- callback of each construction is called once at most; with the calls on their way it is one at most, and none
  -- while its timer can still call; and nothing is on its way to memory that is free, if all this was so at the
  -- start.
  pub Reach-Once : (s t : System w) (r : Reach w s t) → AllCareful r → Once s → Once t
  Reach-Once s _ here d v = v
  Reach-Once s t (next r h st) d v = step-Once _ _ st d.1 (Reach-Once s _ r d.0 v)
