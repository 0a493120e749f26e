-- ===== src/BufferedWriter/Fifo.antt =====
-- The buffered writer keeps every byte that it accepts, in order, and stays within its capacity.
use acpp_network.Prelude.{
  if_cases, ltb, ltb→ge, tests, not, ◌||◌, ℕ, ◌+◌, ◌-◌, ◌≤◌, ◌<◌, ◌≡◌, List, [], ◌++◌, arith,
  Ensures, on_part-Ensures, continue-Ensures, refl, sym, ◌∙◌, length, is_empty, min, take, drop,
  length-append, length-take, length-drop, take-add, take-append-drop, append_assoc, append-nil,
}
use acpp_network.Writer.{Writer, SendsPrefix, Sent}
use acpp_network.BufferedWriter.{
  BufferedWriter, add_to_buffer, buffer_rest, sub_size, sub_size-le, so_write, write_buffered,
  write, erase_sent,
}

module _ {W : Type 0} (w : Writer W) (law : SendsPrefix w) where
  -- What has left, and then what waits in the buffer.
  abbrev pub wire : BufferedWriter W → List ℕ
  wire s = law.out s.writer ++ s.buffer

pub record IsValid {W : Type 0} (s : BufferedWriter W) : Type 0 where
  pub bounded : length s.buffer ≤ s.capacity
  pub exact : s.capacity ≡ s.buffer_size

-- A call that returns `n` has put the first `n` bytes behind the wire, and the state stays valid;
-- less than everything is taken only when the buffer is full.
abbrev pub Accepted :
    {W : Type 0} (w : Writer W)
    → SendsPrefix w
    → List ℕ
    → BufferedWriter W
    → ℕ
    → BufferedWriter W
    → Type 0
Accepted w law bytes s n s' =
    (n ≤ length bytes)
    × (wire w law s' ≡ wire w law s ++ take n bytes)
    × IsValid s'
    × (n < length bytes → length s'.buffer ≡ s'.capacity)

module _ {W : Type 0} (w : Writer W) (law : SendsPrefix w) where
  add_to_buffer-Accepted :
      (bytes : List ℕ) (len : ℕ) (s : BufferedWriter W)
      → len ≡ length bytes
      → IsValid s
      → Ensures (Accepted w law bytes s) (add_to_buffer w bytes len s)
  unfolding add_to_buffer
  add_to_buffer-Accepted bytes len s e v =
      let kept = take (min len (s.capacity - length s.buffer)) bytes in
      ground (
        arith,
        append_assoc (law.out s.writer) s.buffer kept,
        length-append s.buffer kept,
        length-take (min len (s.capacity - length s.buffer)) bytes,
      )

  -- The wire after the rest of a write whose first `n` bytes left at once.
  Accepted-rest :
      (bytes : List ℕ) (n m : ℕ) (s t u : BufferedWriter W)
      → s.buffer ≡ []
      → t.buffer ≡ []
      → Sent law.out bytes s.writer n t.writer
      → Accepted w law (drop n bytes) t m u
      → Accepted w law bytes s (n + m) u
  Accepted-rest bytes n m s t u es et h a = (
    omega (arith, length-drop n bytes),
    ground (
      arith,
      take-add n m bytes h.0,
      append-nil (law.out s.writer),
      append-nil (law.out t.writer),
      append_assoc (law.out s.writer) (take n bytes) (take m (drop n bytes)),
    ),
    a.2,
    λ l. a.3 (omega (arith, length-drop n bytes)),
  )

  buffer_rest-Accepted :
      (bytes : List ℕ) (n : ℕ) (s t : BufferedWriter W)
      → s.buffer ≡ []
      → t.buffer ≡ []
      → Sent law.out bytes s.writer n t.writer
      → IsValid t
      → Ensures (Accepted w law bytes s) (buffer_rest w bytes n t)
  unfolding buffer_rest
  buffer_rest-Accepted bytes n s t es et h v =
      let e : sub_size (length bytes) n ≡ length (drop n bytes) =
        sub_size-le _ _ h.0 ∙ sym (length-drop n bytes) in
      if_cases (Ensures (Accepted w law bytes s)) (ltb 0 (sub_size (length bytes) n))
        (λ more.
          continue-Ensures (Accepted w law (drop n bytes) t) (Accepted w law bytes s) _
            (add_to_buffer w (drop n bytes) (sub_size (length bytes) n) t)
            (add_to_buffer-Accepted (drop n bytes) _ t e v)
            (λ m u a. Accepted-rest bytes n m s t u es et h a))
        (λ all. (
          h.0,
          ground (arith, append-nil (law.out s.writer), append-nil (law.out t.writer)),
          v,
          λ l. absurd (omega (tests, sub_size-le _ _ h.0, ltb→ge _ _ all)),
        ))

  -- A write on a valid buffered writer, whose writer is ready and sends prefixes, returns the
  -- number of bytes that it accepts: they stand, in order, behind what was sent and buffered
  -- before, the buffer stays within its capacity, and fewer than all are accepted only where the
  -- buffer is full.
  pub write-Accepted :
      (bytes : List ℕ) (s : BufferedWriter W)
      → IsValid s
      → law.IsReady s.writer
      → Ensures (Accepted w law bytes s) (write w bytes s)
  unfolding write
  write-Accepted bytes s v ready =
      if_cases (Ensures (Accepted w law bytes s))
        (not (is_empty s.buffer) || not (w.write_enabled s.writer))
        (λ _. add_to_buffer-Accepted bytes (length bytes) s refl v)
        (λ direct.
          let es : s.buffer ≡ [] = ground arith in
          continue-Ensures
            (λ n t. (t.buffer ≡ []) × Sent law.out bytes s.writer n t.writer × IsValid t)
            (Accepted w law bytes s) (buffer_rest w bytes) (so_write w bytes s)
            (on_part-Ensures (Sent law.out bytes s.writer) _ _ (w.so_write bytes s.writer)
              (law.so_write_Sent bytes s.writer ready)
              (λ n w' h. (es, h, record { bounded = v.bounded; exact = v.exact })))
            (λ n t h. buffer_rest-Accepted bytes n s t es h.0 h.1 h.2))

  -- What `write_buffered` leaves: `n` bytes have gone from the front of the buffer to the writer.
  abbrev pub Flushed : BufferedWriter W → ℕ → BufferedWriter W → Type 0
  Flushed s n s' =
      (wire w law s' ≡ wire w law s) × IsValid s' × (length s'.buffer + n ≡ length s.buffer)

  erase_sent-Flushed :
      (n : ℕ) (s t : BufferedWriter W)
      → IsValid s
      → t ≡ record s { writer = t.writer }
      → Sent law.out s.buffer s.writer n t.writer
      → Ensures (Flushed s) (erase_sent w n t)
  unfolding erase_sent
  erase_sent-Flushed n s t v e h = ground (
    arith,
    length-drop n s.buffer,
    take-append-drop n s.buffer,
    append_assoc (law.out s.writer) (take n s.buffer) (drop n s.buffer),
  )

  -- A flush of a valid buffered writer, whose writer is ready and sends prefixes, returns, leaves
  -- what was sent followed by the buffer as it was, keeps the writer valid, and buffers no more
  -- than before.
  pub write_buffered-Flushed :
      (s : BufferedWriter W)
      → IsValid s
      → law.IsReady s.writer
      → Ensures (Flushed s) (write_buffered w s)
  unfolding write_buffered
  write_buffered-Flushed s v ready =
      if_cases (Ensures (Flushed s)) (is_empty s.buffer) (λ _. (refl, v, omega arith))
        (λ _.
          continue-Ensures
            (λ n t.
              (t ≡ record s { writer = t.writer }) × Sent law.out s.buffer s.writer n t.writer)
            (Flushed s) (erase_sent w) (so_write w s.buffer s)
            (on_part-Ensures (Sent law.out s.buffer s.writer) _ _ (w.so_write s.buffer s.writer)
              (law.so_write_Sent s.buffer s.writer ready) (λ n w' h. (refl, h)))
            (λ n t h. erase_sent-Flushed n s t v h.0 h.1))
