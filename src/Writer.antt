-- ===== src/Writer.antt =====
-- What src/detail/common.h asks of its template argument `Writer`, and what
-- include/acpp-network/stream.h asks of a socket: a non-blocking write of a prefix.
use acpp_network.Prelude.{ℕ, ◌≤◌, ◌≡◌, Bool, List, ◌++◌, Action, Ensures, length, take}

pub record Writer (W : Type 0) : Type 0 where
  pub so_write : List ℕ → Action W ℕ
  pub write_enabled : W → Bool

-- The call returned a count `n`, and the first `n` bytes are behind what was sent before.
abbrev pub Sent : {W : Type 0} → (W → List ℕ) → List ℕ → W → ℕ → W → Type 0
Sent out bytes w n w' = (n ≤ length bytes) × (out w' ≡ out w ++ take n bytes)

-- The contract: `out` is what has left through the writer so far.
pub record SendsPrefix {W : Type 0} (w : Writer W) : Type 1 where
  pub out : W → List ℕ
  -- The states in which a write is promised to work, such as those of an open socket.
  pub IsReady : W → Type 0
  pub so_write_Sent :
      (bytes : List ℕ) (s : W) → IsReady s → Ensures (Sent out bytes s) (w.so_write bytes s)
