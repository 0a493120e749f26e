-- ===== src/Stream/Wiring.antt =====
-- include/acpp-network/stream.h: when `socket_stream` sets the callbacks of its socket.
use acpp_network.Prelude.{◌≡◌, refl, Bool, true, false, List, [], ◌∷◌, if_cases, if◌then◌else◌}
use acpp_network.SocketTypes.{SocketCallbacks, no_callbacks}

-- The callbacks of `socket_`, and the flag of `last`.
pub record Wiring : Type 0 where
  pub callbacks : SocketCallbacks
  pub callback_init_ : Bool

-- The four callbacks that it sets; the other two stay.
pub callback_init : Wiring → Wiring
callback_init w = record w {
  callbacks = record (w.callbacks) {
    on_connected = true;
    on_disconnected = true;
    on_received = true;
    on_sent = true;
  };
}

-- The constructor makes a socket with no callbacks.
abbrev pub init : Wiring
init = record { callbacks = no_callbacks; callback_init_ = false }

pub data Op : Type 0 where
  last_op : Op
  socket_op : SocketCallbacks → Op

pub last : Wiring → Wiring
last w = if w.callback_init_ then w else callback_init (record w { callback_init_ = true })

-- Another socket comes with the callbacks that it has.
pub socket : SocketCallbacks → Wiring → Wiring
socket callbacks w = callback_init (record w { callbacks = callbacks })

pub step : Op → Wiring → Wiring
step last_op w = last w
step (socket_op callbacks) w = socket callbacks w

pub run : List Op → Wiring → Wiring
run [] w = w
run (o ∷ os) w = run os (step o w)

pub record IsWired (w : Wiring) : Type 0 where
  pub connected : w.callbacks.on_connected ≡ true
  pub disconnected : w.callbacks.on_disconnected ≡ true
  pub received : w.callbacks.on_received ≡ true
  pub sent : w.callbacks.on_sent ≡ true

callback_init-IsWired : (w : Wiring) → IsWired (callback_init w)
unfolding callback_init
callback_init-IsWired w = record {
  connected = refl;
  disconnected = refl;
  received = refl;
  sent = refl;
}

-- The flag is set only where the callbacks are.
abbrev Sound : Wiring → Type 0
Sound w = w.callback_init_ ≡ true → IsWired w

step-IsWired : (o : Op) (w : Wiring) → Sound w → IsWired (step o w)
unfolding step last socket
step-IsWired last_op w v =
    if_cases IsWired w.callback_init_ (λ set. v set) (λ _. callback_init-IsWired _)
step-IsWired (socket_op callbacks) w v = callback_init-IsWired _

IsWired-run : (os : List Op) (w : Wiring) → IsWired w → IsWired (run os w)
unfolding run
IsWired-run [] w v = v
IsWired-run (o ∷ os) w v = IsWired-run os (step o w) (step-IsWired o w (λ _. v))

-- After any calls of `last` and of `socket` on a new `socket_stream`, one at least, the socket that it then has
-- has the callbacks of connection, disconnection, input and write set, whatever it came with.
pub run-IsWired : (o : Op) (os : List Op) → IsWired (run (o ∷ os) init)
unfolding run
run-IsWired o os = IsWired-run os (step o init) (step-IsWired o init (λ h. absurd (cc)))
