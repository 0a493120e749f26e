-- ===== src/Tests/Streams.antt =====
-- A stream with one plain layer over its socket, and a batch of events of the loop on a kqueue.
use acpp_network.Prelude.{
  ℕ, ◌≡◌, refl, Bool, true, List, [], ◌∷◌, Option, none, some, Action, ok, throw, fault,
  if◌then◌else◌, ◌==◌,
}
use acpp_network.Layers.{Stack, bottom, over, socket_stream, layer, stream, chain_type}
use acpp_network.Stream.{Event, received, Memory, construct, tell_user, hear}
use acpp_network.Stream.Events.{hear_lowest}
use acpp_network.Stream.Wiring.{IsWired, run, init, last_op, socket_op, run-IsWired}
use acpp_network.SocketTypes.{no_callbacks}
use acpp_network.MacLoop.{
  Env, Loop, TimerImpl, Do, do_exec, do_cancel, do_destroy, timer_event, dispatch_all,
}
use acpp_network.MacLoop.Stale.{dispatch_all-destroyed}
use acpp_network.Tests.Toy.{toy_posix}

abbrev memory : Memory
memory = record {
  objects = construct 77 (over stream (over layer (bottom socket_stream)));
  on_connected_cb_ = true;
  on_disconnected_cb_ = true;
  on_received_cb_ = true;
  calls = [];
}

-- No layer here encrypts.
abbrev encrypting : Event → Action Memory (Unit {0})
encrypting ev m = (ok tt, m)

hear_lowest_example :
    hear encrypting
      (chain_type (over stream (over layer (bottom socket_stream))))
      3
      (received (1 ∷ 2 ∷ []))
      socket_stream
      0
      0
      memory
    ≡ (ok tt, tell_user (received (1 ∷ 2 ∷ [])) memory)
unfolding acpp_network.Layers.it
hear_lowest_example =
    hear_lowest encrypting (received (1 ∷ 2 ∷ [])) (over layer (bottom socket_stream)) 77 memory
      (refl, refl) refl

run-IsWired_example : IsWired (run (last_op ∷ socket_op no_callbacks ∷ last_op ∷ []) init)
run-IsWired_example = run-IsWired last_op (socket_op no_callbacks ∷ last_op ∷ [])

-- The function 10 passes 12 to `exec`, 20 destroys the timer 2, and 30 cancels it.
abbrev calls : ℕ → List Do
calls n =
    if n == 20
    then do_destroy 2 ∷ []
    else if n == 30
    then do_cancel 2 ∷ []
    else if n == 10
    then do_exec 12 ∷ []
    else []

abbrev quiet_calls : ℕ → List Do
quiet_calls n = if n == 10 then do_exec 12 ∷ [] else if n == 30 then do_cancel 2 ∷ [] else []

abbrev env : (ℕ → List Do) → Env
env does = record {
  mac = record { posix = toy_posix; kqueue = λ k. (some 9, k); kevent = λ _ _ k. (true, k) };
  kevent_wait = λ _ _ k. (some [], k);
  calls = does;
  socket_handler = λ _ k. ([], k);
}

abbrev timer : ℕ → Option TimerImpl
timer f = some (record { milliseconds_ = 5; cb_ = some f })

-- The timers 1 and 2, and a queue with the function 40.
abbrev loop : (does : ℕ → List Do) → ℕ → Loop (env does)
loop does f = record {
  io = record { run_ = true; kq_ = some 9; pending_callbacks_ = 40 ∷ [] };
  kernel = record { err = 0; room = 0; gone = []; arrived = []; entry = none; closed = [] };
  timers = λ a. if a == 1 then timer f else if a == 2 then timer 50 else none;
  ran = [];
}

abbrev both : ℕ → Bool
both a = if a == 1 then true else a == 2

abbrev Found : Option TimerImpl → Type 0
Found o = (t : TimerImpl) × (o ≡ some t)

dispatch_all-destroyed_example :
    (dispatch_all (env calls) (timer_event 1 ∷ timer_event 2 ∷ []) (loop calls 20)).0 ≡ throw fault
dispatch_all-destroyed_example =
    dispatch_all-destroyed (env calls) 1 2 20 5 5 (loop calls 20) (some 50) [] refl refl refl
