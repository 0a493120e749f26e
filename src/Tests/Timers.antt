-- ===== src/Tests/Timers.antt =====
-- A timer queue in which the handle of a timer is its parameter, and runs of two timers.
use acpp_network.Prelude.{
  ℕ, ◌≡◌, refl, inl, inr, Bool, true, false, [], ◌∷◌, none, some, pos, arith, ◌==◌, if◌then◌else◌,
  if_cases, ==→ne, subst, ap, sym, ◌∙◌,
}
use acpp_network.WindowsTimers.{
  TimerQueue, TimerImpl, System, construct, move_construct, destroy, destroys, free, cancel,
  cancel_at, cancel_impl, on_impl, on_timer, exec, run_posted, call, constructs, moves, fires,
  posts, runs, Reach, here, next,
}
use acpp_network.WindowsTimers.Accounts.{count, nothing, same-cases}
use acpp_network.WindowsTimers.Once.{TimerLaws, Once, Reach-Once, IsDone, AllCareful, under_way}
use acpp_network.WindowsTimers.Cancelled.{cancel-silent}

abbrev armed_at : ℕ → Bool → (ℕ → Bool) → ℕ → Bool
armed_at p b q x = if p == x then b else q x

abbrev toy : TimerQueue
toy = record {
  Queue = ℕ → Bool;
  create_timer = λ p ms q. (p, armed_at p true q);
  delete_timer = λ h q. armed_at h false q;
  Calls = λ q p q'. (q p ≡ true) × (q' ≡ armed_at p false q);
}

disarmed : (p x : ℕ) (q : ℕ → Bool) → armed_at p false q x ≡ true → q x ≡ true
disarmed p x q = if_cases (λ b. b ≡ true → q x ≡ true) (p == x) (λ e h. ground arith) (λ e h. h)

armed_other : (p x : ℕ) (q : ℕ → Bool) → ¬ (p ≡ x) → armed_at p true q x ≡ true → q x ≡ true
armed_other p x q ne =
    if_cases (λ b. b ≡ true → q x ≡ true) (p == x) (λ e h. absurd (ground (arith, ne))) (λ e h. h)

stopped : (p : ℕ) (q : ℕ → Bool) → ¬ (armed_at p false q p ≡ true)
stopped p q =
    if_cases (λ b. ¬ (b ≡ true)) (p == p) (λ e h. ground arith) (λ e h. absurd (==→ne p p e refl))

toy_laws : TimerLaws toy
toy_laws = record {
  IsArmed = λ h p q. (h ≡ p) × (q p ≡ true);
  call_armed = λ q q' p c. (p, (refl, c.0), λ a. stopped p q (sym (ap (λ r. r p) c.1) ∙ a.1));
  call_others = λ q q' p g x c a. (a.0, disarmed p x q (sym (ap (λ r. r x) c.1) ∙ a.1));
  create_new = λ p ms g x q a. elim (same-cases p x) [
    | inl e ↦ inl (a.0 ∙ sym e, e)
    | inr ne ↦ inr (a.0, armed_other p x q ne a.1)
  ];
  delete_stops = λ h x q a. stopped x q (subst (λ y. armed_at y false q x ≡ true) a.0 a.1);
  delete_others = λ h g x q a. (a.0, disarmed h x q a.1);
}

abbrev nobody : System toy
nobody = record {
  impls = λ p. none;
  constructed = 0;
  pimpl_ = λ t. none;
  queue = λ p. false;
  running = [];
  posted = [];
  calls = [];
  told = [];
  freed_used = false;
}

unarmed : ¬ (false ≡ true)
unarmed h = ground arith

nobody-Once : Once toy toy_laws nobody
unfolding toy_laws
nobody-Once = record {
  once = λ n. omega arith;
  fresh = λ n h. omega arith;
  at_most = λ p i h. absurd (nothing i none refl h);
  armed = λ p i g h a. absurd (unarmed a.1);
  old = λ p i h. absurd (nothing i none refl h);
  idle = λ p h. refl;
  unarmed = λ p g h a. unarmed a.1;
  distinct = λ p q i j h k e. absurd (nothing i none refl h);
}

-- The timer 1, whose callback is set, with its implementation at 0.
abbrev one_timer : System toy
one_timer = construct toy 1 0 (pos 10) true nobody

abbrev fired : ℕ → System toy → System toy
fired p s = record s { queue = armed_at p false s.queue; running = p ∷ s.running }

abbrev posted_by : ℕ → System toy → System toy
posted_by p s = on_timer toy p true (record s { running = [] })

abbrev served : System toy
served =
    let s : System toy = move_construct toy 5 1 (posted_by 0 (fired 0 one_timer)) in
    run_posted toy 0 (record s { posted = [] })

-- The timer is destroyed when it has called, and its memory is used again.
abbrev again : System toy
again = construct toy 2 0 (pos 3) true (destroy toy 5 served)

served_run : Reach toy nobody served
unfolding construct on_timer exec on_impl move_construct
served_run =
    let r0 = next here refl (constructs 1 0 (pos 10) true refl) in
    let r1 = next r0 refl (fires 0 (armed_at 0 false one_timer.queue) (refl, refl)) in
    let r2 = next r1 refl (posts 0 true [] [] refl) in
    next (next r2 refl (moves 5 1)) refl (runs 0 [] [] refl)

again_run : Reach toy nobody again
unfolding construct on_timer exec on_impl move_construct run_posted call destroy free
again_run = next (next served_run refl (destroys 5)) refl (constructs 2 0 (pos 3) true refl)

served-IsDone : (p : ℕ) → IsDone toy toy_laws served p
unfolding toy_laws construct on_timer exec on_impl move_construct run_posted call
served-IsDone p = (
  λ g a. elim (same-cases 0 p) [
    | inl e ↦
        stopped 0 one_timer.queue
          (subst (λ y. armed_at 0 false one_timer.queue y ≡ true) (sym e) a.1)
    | inr ne ↦ unarmed (armed_other 0 p nobody.queue ne (disarmed 0 p one_timer.queue a.1))
  ],
  refl,
)

again-AllCareful : AllCareful toy toy_laws again_run
unfolding again_run served_run
again-AllCareful = (((((((tt, tt), tt), tt), tt), tt), λ p h. served-IsDone p), tt)

Reach-Once_example : Once toy toy_laws again
Reach-Once_example = Reach-Once toy toy_laws nobody again again_run again-AllCareful nobody-Once

one_timer_run : Reach toy nobody one_timer
one_timer_run = next here refl (constructs 1 0 (pos 10) true refl)

one_timer-AllCareful : AllCareful toy toy_laws one_timer_run
unfolding one_timer_run
one_timer-AllCareful = (tt, tt)

one_timer-Once : Once toy toy_laws one_timer
one_timer-Once =
    Reach-Once toy toy_laws nobody one_timer one_timer_run one_timer-AllCareful nobody-Once

-- After the cancel there is a second timer, which calls.
abbrev second : System toy
second = construct toy 2 1 (pos 3) true (cancel toy 1 one_timer)

abbrev second_called : System toy
second_called = run_posted toy 1 (record (posted_by 1 (fired 1 second)) { posted = [] })

second_run : Reach toy (cancel toy 1 one_timer) second_called
unfolding construct on_timer exec on_impl cancel cancel_at cancel_impl
second_run =
    let r0 = next here refl (constructs 2 1 (pos 3) true refl) in
    let r1 = next r0 refl (fires 1 (armed_at 1 false second.queue) (refl, refl)) in
    let r2 = next r1 refl (posts 1 true [] [] refl) in next r2 refl (runs 1 [] [] refl)

second_calls : second_called.calls ≡ 1 ∷ []
unfolding construct on_timer exec on_impl cancel cancel_at cancel_impl run_posted call
second_calls = refl

abbrev first_impl : TimerImpl
first_impl = record { handle_ = 0; milliseconds_ = pos 10; cb_ = true; parent_ = 1; serial = 0 }

first_owned : one_timer.pimpl_ 1 ≡ some 0
unfolding construct
first_owned = refl

first_held : one_timer.impls 0 ≡ some first_impl
unfolding construct
first_held = refl

none_on_way : under_way 0 one_timer ≡ 0
unfolding construct
none_on_way = refl

cancel-silent_example : count 0 second_called.calls ≡ count 0 one_timer.calls
cancel-silent_example =
    cancel-silent toy toy_laws 1 0 first_impl one_timer second_called one_timer-Once first_owned
      first_held none_on_way second_run
