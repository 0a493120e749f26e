-- ===== src/Stream.antt =====
-- include/acpp-network/stream.h: a stream and its layers as objects in memory. An event of the socket goes up by
-- the pointers `prev_`, which have no type; a write goes down by the types.
pub mod Events
pub mod Wiring
use acpp_network.Prelude.{
  ℕ, zero, suc, ◌+◌, Bool, true, false, ◌&&◌, List, [], ◌∷◌, ◌++◌, Option, none, some, Action, ok,
  throw, out_of_fuel, fault, ◌==◌, if◌then◌else◌, get_elem?,
}
use acpp_network.Writer.{Writer}
use acpp_network.SocketStream
use acpp_network.SocketStream.{SocketStream}
use acpp_network.Layers.{
  Kind, null_layer, socket_stream, layer, ssl_stream, stream, Stack, bottom, over, it, chain_type,
  get_prev,
}

pub data Event : Type 0 where
  connected disconnected : Event
  received : List ℕ → Event

-- An object knows its class, which the pointers to it do not.
pub record Object : Type 0 where
  pub kind : Kind
  pub prev_ : ℕ

-- The objects of a stream, from the bottom, and the callbacks of `stream` that are set. The address of an object
-- is its place. `calls` are the calls of these callbacks.
pub record Memory : Type 0 where
  pub objects : List Object
  pub on_connected_cb_ : Bool
  pub on_disconnected_cb_ : Bool
  pub on_received_cb_ : Bool
  pub calls : List Event

-- The constructors: the one of a layer sets `next_.prev_` to itself. The first argument is the `prev_` of the
-- whole, which the constructor of the layer above sets, and which is not set at the top.
pub construct : ℕ → Stack → List Object
construct above (bottom k) = record { kind = k; prev_ = above } ∷ []
construct above (over k next) =
    construct (it (over k next)) next ++ record { kind = k; prev_ = above } ∷ []

abbrev pub kind_number : Kind → ℕ
kind_number null_layer = 0
kind_number socket_stream = 1
kind_number layer = 2
kind_number ssl_stream = 3
kind_number stream = 4

-- Whether the callback of `stream` for an event is set.
abbrev pub is_set : Event → Memory → Bool
is_set connected m = m.on_connected_cb_
is_set disconnected m = m.on_disconnected_cb_
is_set (received bytes) m = m.on_received_cb_

-- `on_connected`, `on_disconnected` and `on_received` of `stream`.
abbrev pub tell_user : Event → Memory → Memory
tell_user ev m = if is_set ev m then record m { calls = m.calls ++ ev ∷ [] } else m

-- The classes that pass an event on; `layer` and `null_layer` have `on_received` only.
abbrev pub passes : Event → Kind → Bool
passes (received bytes) socket_stream = true
passes (received bytes) layer = true
passes (received bytes) null_layer = true
passes (received bytes) ssl_stream = false
passes (received bytes) stream = false
passes connected socket_stream = true
passes connected layer = false
passes connected null_layer = false
passes connected ssl_stream = false
passes connected stream = false
passes disconnected socket_stream = true
passes disconnected layer = false
passes disconnected null_layer = false
passes disconnected ssl_stream = false
passes disconnected stream = false

-- `encrypting` is what `ssl::stream` does with an event, which Ssl models.
module _ (encrypting : Event → Action Memory (Unit {0})) (chain : List Kind) where
  -- `if (prior) prior->on_...()`, on the class that the cast gives.
  tell :
      (Kind → ℕ → ℕ → Action Memory (Unit {0})) → ℕ → Option (Kind × ℕ) → Action Memory (Unit {0})
  tell hear i none m = (ok tt, m)
  tell hear i (some (k, p)) m = hear k (i + 1) p m

  pass_on : (Kind → ℕ → ℕ → Action Memory (Unit {0})) → Bool → ℕ → Object → Action Memory (Unit {0})
  pass_on hear true i o m = tell hear i (get_prev chain i o.prev_) m
  pass_on hear false i o m = (throw fault, m)

  heard_by :
      (Kind → ℕ → ℕ → Action Memory (Unit {0}))
      → Event
      → Kind
      → ℕ
      → Object
      → Action Memory (Unit {0})
  heard_by hear ev stream i o m = (ok tt, tell_user ev m)
  heard_by hear ev ssl_stream i o m = encrypting ev m
  heard_by hear ev socket_stream i o m = pass_on hear (passes ev socket_stream) i o m
  heard_by hear ev layer i o m = pass_on hear (passes ev layer) i o m
  heard_by hear ev null_layer i o m = pass_on hear (passes ev null_layer) i o m

  -- A call through a pointer to an object of another class is undefined: a fault.
  at_object :
      (Kind → ℕ → ℕ → Action Memory (Unit {0}))
      → Event
      → Kind
      → ℕ
      → Option Object
      → Action Memory (Unit {0})
  at_object hear ev k i none m = (throw fault, m)
  at_object hear ev k i (some o) m =
      if kind_number o.kind == kind_number k then heard_by hear ev k i o m else (throw fault, m)

  -- The handler of an event in the class `k` with the number `i`, on the object at `p`.
  pub hear : ℕ → Event → Kind → ℕ → ℕ → Action Memory (Unit {0})
  hear zero ev k i p m = (out_of_fuel, m)
  hear (suc fuel) ev k i p m = at_object (hear fuel ev) ev k i (get_elem? m.objects p) m

module _ {W : Type 0} (w : Writer W) (encrypted : Stack → List ℕ → Action (SocketStream W) ℕ) where
  -- `write`, from the top of a stack; `encrypted` is the one of `ssl::stream`.
  pub write : Stack → List ℕ → Action (SocketStream W) ℕ
  write (bottom socket_stream) bytes m = SocketStream.write w bytes m
  write (bottom null_layer) bytes m = (ok 0, m)
  write (bottom layer) bytes m = (throw fault, m)
  write (bottom ssl_stream) bytes m = (throw fault, m)
  write (bottom stream) bytes m = (throw fault, m)
  write (over stream next) bytes m = write next bytes m
  write (over layer next) bytes m = write next bytes m
  write (over ssl_stream next) bytes m = encrypted next bytes m
  write (over socket_stream next) bytes m = (throw fault, m)
  write (over null_layer next) bytes m = (throw fault, m)
