-- ===== src/SocketTypes.antt =====
-- include/acpp-network/socket_base.h: the callbacks of an asynchronous socket.
use acpp_network.Prelude.{Bool, false}

-- `socket_callbacks`: which of the functions are set.
pub record SocketCallbacks : Type 0 where
  pub on_connected : Bool
  pub on_disconnected : Bool
  pub on_received : Bool
  pub on_sent : Bool
  pub on_accepted : Bool
  pub on_error : Bool

abbrev pub no_callbacks : SocketCallbacks
no_callbacks = record {
  on_connected = false;
  on_disconnected = false;
  on_received = false;
  on_sent = false;
  on_accepted = false;
  on_error = false;
}

-- The hint that `on_error` is given.
pub data Hint : Type 0 where
  hint_send hint_getsockopt hint_accept hint_recv : Hint
