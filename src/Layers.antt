-- ===== src/Layers.antt =====
-- include/acpp-network/stream.h: the layers of a stream. Each one knows the type of the layer below; the
-- pointer to the layer above has no type, and `get_prev` casts it by the chain of the whole stream.
pub mod Casts
use acpp_network.Prelude.{
  ℕ, suc, ◌+◌, List, [], ◌∷◌, ◌++◌, Option, none, some, ltb, if◌then◌else◌, length, get_elem?,
}

-- The class of a layer.
pub data Kind : Type 0 where
  null_layer socket_stream layer ssl_stream stream : Kind

-- A layer with those below it; a bottom has no `Next`.
pub data Stack : Type 0 where
  bottom : Kind → Stack
  over : Kind → Stack → Stack

-- `it`, the number of a layer, from the bottom.
unfoldable pub it : Stack → ℕ
it (bottom k) = 0
it (over k next) = it next + 1

-- `chain_type`.
pub chain_type : Stack → List Kind
chain_type (bottom k) = k ∷ []
chain_type (over k next) = chain_type next ++ k ∷ []

-- The class that the pointer is cast to, with the pointer; `none` is the null pointer.
cast_to : Option Kind → ℕ → Option (Kind × ℕ)
cast_to none p = none
cast_to (some k) p = some (k, p)

pub get_prev : List Kind → ℕ → ℕ → Option (Kind × ℕ)
get_prev chain int p =
    if ltb (int + 1) (length chain) then cast_to (get_elem? chain (int + 1)) p else none
