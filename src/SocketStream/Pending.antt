-- ===== src/SocketStream/Pending.antt =====
-- The queue of a `socket_stream`: flushing keeps the bytes in order; a write that the socket takes in
-- part queues some of them twice.
use acpp_network.Prelude.{
  ℕ, ◌≤◌, ◌<◌, ◌≡◌, refl, sym, ap, ◌∙◌, inl, inr, Bool-cases, List, [], ◌++◌, append-nil,
  append_assoc, arith, ltb, ltb→lt, ltb→ge, if◌then◌else◌, if_cases, Ensures, Ensures-mono,
  continue-Ensures, on_part-Ensures, length, take, drop, take-length, take-append-drop, is_empty,
}
use acpp_network.Writer.{Writer, SendsPrefix, Sent}
use acpp_network.SocketStream.{
  SocketStream, socket_write, after_write, write, erase_pending, on_sent,
}

module _ {W : Type 0} (w : Writer W) (law : SendsPrefix w) where
  -- What has left, and then what waits.
  abbrev pub wire : SocketStream W → List ℕ
  wire s = law.out s.socket_ ++ s.pending_data_

  -- The socket took the first `n` bytes; all of them are queued unless it took all.
  abbrev pub Queued : List ℕ → SocketStream W → ℕ → SocketStream W → Type 0
  Queued bytes s n t =
      (n ≤ length bytes)
      × (law.out t.socket_ ≡ law.out s.socket_ ++ take n bytes)
      × (t.pending_data_
          ≡ (if ltb n (length bytes) then s.pending_data_ ++ bytes else s.pending_data_))

  after_write-Queued :
      (bytes : List ℕ) (n : ℕ) (s t : SocketStream W)
      → t.pending_data_ ≡ s.pending_data_
      → Sent law.out bytes s.socket_ n t.socket_
      → Queued bytes s n (after_write w bytes n t).1
  unfolding after_write
  after_write-Queued bytes n s t e h = ground arith

  -- A write on a socket that is ready returns the whole length; the socket has sent a prefix, and
  -- where it is not the whole, all of the bytes are queued behind those that wait.
  pub write-Queued :
      (bytes : List ℕ) (s : SocketStream W)
      → law.IsReady s.socket_
      → Ensures (λ r t. (r ≡ length bytes) × ((n : ℕ) × Queued bytes s n t)) (write w bytes s)
  unfolding write
  write-Queued bytes s ready =
      continue-Ensures
        (λ n t. (t.pending_data_ ≡ s.pending_data_) × Sent law.out bytes s.socket_ n t.socket_)
        (λ r t. (r ≡ length bytes) × ((n : ℕ) × Queued bytes s n t)) (after_write w bytes)
        (socket_write w bytes s)
        (on_part-Ensures (Sent law.out bytes s.socket_) _ _ (w.so_write bytes s.socket_)
          (law.so_write_Sent bytes s.socket_ ready) (λ n t h. (refl, h)))
        (λ n t h. unfold after_write in (refl, (n, after_write-Queued bytes n s t h.0 h.1)))

  -- What a write has done to the wire, when nothing waited before it: the socket took `n` bytes.
  abbrev pub Wired : List ℕ → SocketStream W → SocketStream W → Type 0
  Wired bytes s t =
      (n : ℕ) × (n ≤ length bytes)
      × (law.out t.socket_ ≡ law.out s.socket_ ++ take n bytes)
      × (n ≡ length bytes → wire t ≡ wire s ++ bytes)
      × (n < length bytes → wire t ≡ wire s ++ (take n bytes ++ bytes))

  Queued-Wired :
      (bytes : List ℕ) (s t : SocketStream W) (n : ℕ)
      → s.pending_data_ ≡ []
      → Queued bytes s n t
      → Wired bytes s t
  Queued-Wired bytes s t n none_waits h =
      let out_s = law.out s.socket_ in
      let w : wire s ≡ out_s = ap (λ x. out_s ++ x) none_waits ∙ append-nil out_s in
      elim (Bool-cases (ltb n (length bytes))) [
        | inl part ↦
            let waits : t.pending_data_ ≡ bytes = ground arith in
            (
              n,
              h.0,
              h.1,
              λ all. absurd (omega (arith, ltb→lt _ _ part)),
              λ _.
                  ap (λ x. x ++ t.pending_data_) h.1
                  ∙ ap (λ x. (out_s ++ take n bytes) ++ x) waits
                  ∙ append_assoc out_s (take n bytes) bytes
                  ∙ ap (λ x. x ++ (take n bytes ++ bytes)) (sym w),
            )
        | inr all ↦
            let none_wait : t.pending_data_ ≡ [] = ground arith in
            let whole : law.out t.socket_ ≡ out_s ++ bytes =
              h.1 ∙ ap (◌++◌ out_s) (take-length n bytes (ltb→ge _ _ all)) in
            (
              n,
              h.0,
              h.1,
              λ _.
                  ap (λ x. law.out t.socket_ ++ x) none_wait
                  ∙ append-nil (law.out t.socket_)
                  ∙ whole
                  ∙ ap (λ x. x ++ bytes) (sym w),
              λ part. absurd (omega (arith, ltb→ge _ _ all)),
            )
      ]

  -- A write of a stream with nothing pending, on a socket that is ready, returns the whole length. Where the
  -- socket took all the bytes, they are on the wire once; where it took fewer, what it took is on the wire and then
  -- all the bytes again, so that part is there twice.
  pub write-Wired :
      (bytes : List ℕ) (s : SocketStream W)
      → law.IsReady s.socket_
      → s.pending_data_ ≡ []
      → Ensures (λ r t. (r ≡ length bytes) × Wired bytes s t) (write w bytes s)
  write-Wired bytes s ready none_waits =
      Ensures-mono (λ r t. (r ≡ length bytes) × ((n : ℕ) × Queued bytes s n t))
        (λ r t. (r ≡ length bytes) × Wired bytes s t) (write w bytes s)
        (λ r t h. (h.0, Queued-Wired bytes s t h.1.0 none_waits h.1.1)) (write-Queued bytes s ready)

  erase_pending-wire :
      (n : ℕ) (s t : SocketStream W)
      → t.pending_data_ ≡ s.pending_data_
      → Sent law.out s.pending_data_ s.socket_ n t.socket_
      → Ensures (λ _ u. wire u ≡ wire s) (erase_pending w n t)
  unfolding erase_pending
  erase_pending-wire n s t e h =
      if_cases (λ u. wire u ≡ wire s) (ltb 0 n)
        (λ _. ground (
          arith,
          take-append-drop n s.pending_data_,
          append_assoc (law.out s.socket_) (take n s.pending_data_) (drop n s.pending_data_),
        ))
        (λ zero_sent.
          let z : n ≡ 0 = omega (arith, ltb→ge 0 n zero_sent) in
          let o : law.out t.socket_ ≡ law.out s.socket_ ++ take 0 s.pending_data_ = rw z at h.1 in
          ground (arith, o, append-nil (law.out s.socket_)))

  -- When the socket can be written again, the flush returns, and what was sent followed by what
  -- waits is the same as before.
  pub on_sent-wire :
      (s : SocketStream W) → law.IsReady s.socket_ → Ensures (λ _ t. wire t ≡ wire s) (on_sent w s)
  unfolding on_sent
  on_sent-wire s ready =
      if_cases (Ensures (λ _ t. wire t ≡ wire s)) (is_empty s.pending_data_) (λ _. refl)
        (λ _.
          continue-Ensures
            (λ n t.
              (t.pending_data_ ≡ s.pending_data_)
              × Sent law.out s.pending_data_ s.socket_ n t.socket_)
            (λ _ t. wire t ≡ wire s) (erase_pending w) (socket_write w s.pending_data_ s)
            (on_part-Ensures (Sent law.out s.pending_data_ s.socket_) _ _
              (w.so_write s.pending_data_ s.socket_)
              (law.so_write_Sent s.pending_data_ s.socket_ ready) (λ n t h. (refl, h)))
            (λ n t h. erase_pending-wire n s t h.0 h.1))
