-- ===== src/SocketStream.antt =====
-- include/acpp-network/stream.h: the writing side of `socket_stream`, the lowest layer of a stream,
-- with its queue of bytes that the socket has not taken.
pub mod Pending
pub mod Drains
use acpp_network.Prelude.{
  ℕ, List, ◌++◌, Action, ok, ◌>>=◌, on_part, ltb, if◌then◌else◌, length, drop, is_empty,
}
use acpp_network.Writer.{Writer}

pub record SocketStream (W : Type 0) : Type 0 where
  pub pending_data_ : List ℕ
  pub socket_ : W

module _ {W : Type 0} (w : Writer W) where
  abbrev pub socket_write : List ℕ → Action (SocketStream W) ℕ
  socket_write bytes s = on_part (w.so_write bytes s.socket_) (λ t. record s { socket_ = t })

  -- What `write` does with the count `n` of the socket: it reports that all is written.
  after_write : List ℕ → ℕ → Action (SocketStream W) ℕ
  after_write bytes n s = (
    ok (length bytes),
    if ltb n (length bytes) then record s { pending_data_ = s.pending_data_ ++ bytes } else s,
  )

  pub write : List ℕ → Action (SocketStream W) ℕ
  write bytes = socket_write bytes >>= after_write bytes

  erase_pending : ℕ → Action (SocketStream W) (Unit {0})
  erase_pending n s =
      (ok tt, if ltb 0 n then record s { pending_data_ = drop n s.pending_data_ } else s)

  -- The callback `on_sent` that `callback_init` sets.
  pub on_sent : Action (SocketStream W) (Unit {0})
  on_sent s =
      if is_empty s.pending_data_
      then (ok tt, s)
      else (socket_write s.pending_data_ >>= erase_pending) s
