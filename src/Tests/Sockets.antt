-- ===== src/Tests/Sockets.antt =====
-- The Linux socket of descriptor 3.
use acpp_network.Prelude.{◌≡◌, refl, sym, ◌⊎◌, [], ◌∷◌, Ensures, some, arith}
use mathlib.Core.Bool.{false≢true}
use acpp_network.Writer.{Sent}
use acpp_network.LinuxSocket.{Machine, so_write}
use acpp_network.LinuxSocket.Registered.{IsWakeful}
use acpp_network.LinuxSocket.Write.{so_write-Sent}
use acpp_network.LinuxSocket.Stops.{Blocked, Failed, so_write-Stops}
use acpp_network.LinuxSocket.Events.{handle_event}
use acpp_network.LinuxSocket.Events.Wakeup.{handle_event-IsWakeful}
use acpp_network.LinuxSocket.Events.Connects.{ConnectsOnce, handle_event-ConnectsOnce}
use acpp_network.LinuxSocket.Events.Input.{IsReading, handle_event-Kept, stream}
use acpp_network.Tests.Toy.{env, laws, quiet, app_IsWakeful, event_laws, input_laws, machine}

machine-IsWakeful : IsWakeful env laws machine
machine-IsWakeful = record {
  own = refl;
  synced = refl;
  armed = λ off. absurd (false≢true (sym off));
}

so_write-Sent_example :
    Ensures
      (Sent (λ (m : Machine env). m.kernel.gone) (1 ∷ 2 ∷ 3 ∷ []) machine)
      (so_write env (1 ∷ 2 ∷ 3 ∷ []) machine)
so_write-Sent_example = so_write-Sent env laws quiet (1 ∷ 2 ∷ 3 ∷ []) machine refl

so_write-Stops_example :
    Ensures
      (λ n m. (n ≡ 3) ⊎ Blocked env laws m ⊎ Failed env laws machine m)
      (so_write env (1 ∷ 2 ∷ 3 ∷ []) machine)
so_write-Stops_example = so_write-Stops env laws (1 ∷ 2 ∷ 3 ∷ []) machine machine-IsWakeful

handle_event-IsWakeful_example : IsWakeful env laws (handle_event env 5 machine).1
handle_event-IsWakeful_example =
    handle_event-IsWakeful env laws event_laws app_IsWakeful 5 machine machine-IsWakeful

handle_event-ConnectsOnce_example : ConnectsOnce env (handle_event env 4 machine).1
handle_event-ConnectsOnce_example =
    handle_event-ConnectsOnce env (λ c s k on. on) 4 machine
      (record { at_most = omega arith; none_yet = λ off. refl })

handle_event-Kept_example :
    Ensures
      (λ _ m. IsReading (some 3) m × (stream env input_laws m ≡ 7 ∷ 8 ∷ 9 ∷ []))
      (handle_event env 5 machine)
handle_event-Kept_example =
    handle_event-Kept env input_laws 5 machine
      (record { own = refl; hears = refl; sees_end = refl; plain = refl })
