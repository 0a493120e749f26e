-- ===== src/BufferedWriter.antt =====
-- src/detail/common.h: `buffered_writer`, a buffer of fixed capacity in front of a writer. Bytes are
-- numbers; a pointer with a length is a list.
pub mod Fifo
use acpp_network.Prelude.{
  ℕ, ◌+◌, ◌-◌, ◌%◌, ◌^◌, ◌≤◌, ◌≡◌, arith, Bool, true, false, not, ◌||◌, List, [], ◌∷◌, ◌++◌, min,
  Action, pure, throws, ◌>>=◌, ◌>>◌, modify, gets, on_part, Error, runtime_error, Result, ok, throw,
  out_of_fuel, ltb, ◌==◌, if◌then◌else◌, length, is_empty, take, drop,
}
use acpp_network.Writer.{Writer}

-- `capacity` is that of the vector `buffer_`, which an insertion that fits leaves alone.
pub record BufferedWriter (W : Type 0) : Type 0 where
  pub buffer : List ℕ
  pub capacity : ℕ
  pub buffer_size : ℕ
  pub writer : W

-- `std::vector::reserve` on an empty vector gives at least what is asked: `granted` is what it gives.
pub init : {W : Type 0} → W → ℕ → ℕ → BufferedWriter W
init w buffer_size granted = record {
  buffer = [];
  capacity = granted;
  buffer_size = buffer_size;
  writer = w;
}

-- `size_t` subtraction.
unfoldable pub sub_size : ℕ → ℕ → ℕ
sub_size a b = if ltb a b then (a + 2 ^ 64 - b) % 2 ^ 64 else a - b

pub sub_size-le : (a b : ℕ) → b ≤ a → sub_size a b ≡ a - b
unfolding sub_size
sub_size-le a b h = ground arith

module _ {W : Type 0} (w : Writer W) where
  -- A call of the writer, on the field `writer_`.
  abbrev pub so_write : List ℕ → Action (BufferedWriter W) ℕ
  so_write bytes s = on_part (w.so_write bytes s.writer) (λ w'. record s { writer = w' })

  pub add_to_buffer : List ℕ → ℕ → Action (BufferedWriter W) ℕ
  add_to_buffer bytes len s =
      let free_n = s.capacity - length s.buffer in
      let to_buffer = min len free_n in
      (
        if s.capacity == s.buffer_size then ok to_buffer else throw runtime_error,
        record s { buffer = s.buffer ++ take to_buffer bytes },
      )

  -- What the writer did not take goes to the buffer.
  buffer_rest : List ℕ → ℕ → Action (BufferedWriter W) ℕ
  buffer_rest bytes n s =
      let remaining_len = sub_size (length bytes) n in
      if ltb 0 remaining_len
      then (add_to_buffer (drop n bytes) remaining_len >>= (λ m. pure (n + m))) s
      else (ok n, s)

  pub write : List ℕ → Action (BufferedWriter W) ℕ
  write bytes s =
      if not (is_empty s.buffer) || not (w.write_enabled s.writer)
      then add_to_buffer bytes (length bytes) s
      else (so_write bytes >>= buffer_rest bytes) s

  erase_sent : ℕ → Action (BufferedWriter W) ℕ
  erase_sent n s =
      if ltb (length s.buffer) n
      then (throw runtime_error, s)
      else (ok n, record s { buffer = drop n s.buffer })

  pub write_buffered : Action (BufferedWriter W) ℕ
  write_buffered s = if is_empty s.buffer then (ok 0, s) else (so_write s.buffer >>= erase_sent) s
