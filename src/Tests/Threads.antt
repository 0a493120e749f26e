-- ===== src/Tests/Threads.antt =====
-- A run of two threads and the loop: both have pushed, one has triggered, and the loop has taken their functions.
use acpp_network.Prelude.{◌≡◌, refl, true, [], ◌∷◌, ◌++◌}
use acpp_network.ExecThreads.{
  System, push, trigger, wake, swap, call, Reach, here, next, start, running,
}
use acpp_network.ExecThreads.Wakeups.{held, WillLook, exec-Inv}
use acpp_network.ExecThreads.Progress.{Finishes, exec-Finishes}

-- The first function has run, the second is held, and a third waits in the queue.
abbrev last : System
last = record {
  pending_callbacks_ = 6 ∷ [];
  triggered = true;
  between = 0;
  pc = running (5 ∷ []);
  ran = 4 ∷ [];
  asked = 4 ∷ 5 ∷ 6 ∷ [];
}

run : Reach true start last
run =
    next
      (next
        (next
          (next
            (next
              (next (next (next (next here (push 4)) (push 5)) (trigger 1 refl)) (trigger 0 refl))
              (wake refl refl))
            (swap refl))
          (call 4 (5 ∷ []) refl))
        (push 6))
      (trigger 0 refl)

exec-Inv_example :
    (last.asked ≡ last.ran ++ (held last.pc ++ last.pending_callbacks_)) × WillLook last
exec-Inv_example = exec-Inv true last run

exec-Finishes_example : Finishes true last
exec-Finishes_example = exec-Finishes true last run refl
