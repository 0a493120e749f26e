-- ===== src/LinuxSocket/Write.antt =====
-- The write loop of a Linux socket: it ends, it sends a prefix in order, and where it stops short the
-- loop will be woken or the error has been reported.
use acpp_network.Prelude.{
  ℕ, zero, suc, ◌+◌, ◌≤◌, ◌<◌, ◌≡◌, refl, sym, ap, ◌∙◌, subst, List, ◌++◌, Option, none, some,
  arith, Ensures, Ensures-mono, length, take, drop, min, length-take, length-drop, take-take,
  take-add, append_assoc, append-nil, ◌==◌, if_cases, ==→eq, ==→pos,
}
use acpp_network.Posix.{Fd}
use acpp_network.LinuxSocket.{
  Env, Machine, SocketBasePimpl, so_write_loop, so_write_internal, so_write, after_send,
  send_failed, ask_writable, invoke, eagain, write_chunk,
}
use acpp_network.Writer.{Writer, SendsPrefix, Sent}
use acpp_network.LinuxSocket.Laws.{WriteLaws, IsQuiet, Sends}
use acpp_network.LinuxSocket.Registered.{set_events-out}

module _ (e : Env) {fd : Fd} (law : WriteLaws e.linux e.epollfd fd) where
  -- One call of `send`: a prefix was sent and the socket is as it was, or nothing was sent.
  abbrev pub Stepped : List ℕ → Machine e → ℕ × Machine e → Type 0
  Stepped bytes m (n, m') =
      (n ≤ length bytes)
      × (law.out m'.kernel ≡ law.out m.kernel ++ take n bytes)
      × (0 < n → m'.sock ≡ m.sock)

module _ (e : Env) {fd : Fd} (law : WriteLaws e.linux e.epollfd fd)
    (quiet : IsQuiet e law.out) where
  send_failed-out :
      (m : Machine e) → m.sock.fd_ ≡ fd → law.out (send_failed e m).kernel ≡ law.out m.kernel
  unfolding send_failed ask_writable invoke
  send_failed-out m own =
      if_cases (λ (r : Machine e). law.out r.kernel ≡ law.out m.kernel) (e.errno m.kernel == eagain)
        (λ _. set_events-out e law _ _ own)
        (λ _.
          if_cases (λ (r : Machine e). law.out r.kernel ≡ law.out m.kernel)
            m.sock.callbacks_.on_error (λ _. quiet _ _ _ _) (λ _. refl))

  after_send-Stepped :
      (x : Option ℕ × e.Kernel) (bytes : List ℕ) (m : Machine e)
      → m.sock.fd_ ≡ fd
      → Sends law.out bytes m.kernel x
      → Stepped e law bytes m (after_send e x m)
  unfolding after_send
  after_send-Stepped (some n, k) bytes m own h = (h.0, h.2, λ _. refl)
  after_send-Stepped (none, k) bytes m own h = (
    omega arith,
    send_failed-out (record m { kernel = k }) own ∙ h ∙ sym (append-nil _),
    λ p. absurd (omega arith),
  )

  pub so_write_internal-Stepped :
      (bytes : List ℕ) (m : Machine e)
      → m.sock.fd_ ≡ fd
      → Stepped e law bytes m (so_write_internal e bytes m)
  unfolding so_write_internal
  so_write_internal-Stepped bytes m own =
      after_send-Stepped (e.send m.sock.fd_ bytes m.kernel) bytes m own (
        subst (λ f. Sends law.out bytes m.kernel (e.send f bytes m.kernel)) (sym own)
          (law.send_Sends bytes m.kernel))

  -- The loop from a count `result` on: it adds the length of the prefix that it sends.
  abbrev Extended : List ℕ → ℕ → Machine e → ℕ → Machine e → Type 0
  Extended bytes result m n m' =
      (j : ℕ) × (n ≡ result + j)
      × (j ≤ length bytes)
      × (law.out m'.kernel ≡ law.out m.kernel ++ take j bytes)

  chunk_prefix :
      (bytes : List ℕ) (n : ℕ) (m m' : Machine e)
      → Stepped e law (take (min (length bytes) write_chunk) bytes) m (n, m')
      → (n ≤ length bytes) × (law.out m'.kernel ≡ law.out m.kernel ++ take n bytes)
  chunk_prefix bytes n m m' h =
      let len_aux = min (length bytes) write_chunk in
      let l = length-take len_aux bytes in
      (
        omega (arith, l),
        h.1 ∙ ap (◌++◌ (law.out m.kernel)) (take-take n len_aux bytes (omega (arith, l))),
      )

  -- What one call sends of the chunk, and then the rest of the loop.
  Extended-step :
      (bytes : List ℕ) (result n i : ℕ) (m m' m'' : Machine e)
      → (n ≤ length bytes) × (law.out m'.kernel ≡ law.out m.kernel ++ take n bytes)
      → Extended (drop n bytes) (result + n) m' i m''
      → Extended bytes result m i m''
  Extended-step bytes result n i m m' m'' h (j, counted, within, sent) = (
    n + j,
    omega (arith, counted),
    omega (arith, length-drop n bytes),
    ground (
      arith,
      take-add n j bytes h.0,
      append_assoc (law.out m.kernel) (take n bytes) (take j (drop n bytes)),
    ),
  )

  so_write_loop-Extended :
      (fuel : ℕ) (bytes : List ℕ) (result : ℕ) (m : Machine e)
      → length bytes < fuel
      → m.sock.fd_ ≡ fd
      → Ensures (Extended bytes result m) (so_write_loop e fuel bytes result m)
  unfolding so_write_loop
  so_write_loop-Extended zero bytes result m h own = absurd (omega arith)
  so_write_loop-Extended (suc fuel) bytes result m h own =
      let chunk = take (min (length bytes) write_chunk) bytes in
      let x = so_write_internal e chunk m in
      let step = so_write_internal-Stepped chunk m own in
      let prefix = chunk_prefix bytes x.0 m x.1 step in
      if_cases (Ensures (Extended bytes result m)) (x.0 == 0)
        (λ ended. (
          0,
          omega arith,
          omega arith,
          subst (λ k. law.out x.1.kernel ≡ law.out m.kernel ++ take k chunk) (==→eq _ _ ended)
              step.1,
        ))
        (λ more.
          Ensures-mono (Extended (drop x.0 bytes) (result + x.0) x.1) (Extended bytes result m)
            (so_write_loop e fuel (drop x.0 bytes) (result + x.0) x.1)
            (λ i m'' p. Extended-step bytes result x.0 i m x.1 m'' prefix p)
            (so_write_loop-Extended fuel (drop x.0 bytes) (result + x.0) x.1
              (omega (arith, length-drop x.0 bytes, ==→pos x.0 more, prefix.0))
              (ap (λ (s : SocketBasePimpl). s.fd_) (step.2 (==→pos x.0 more)) ∙ own)))

  -- On the open descriptor of the laws, `so_write` returns, and has sent exactly the prefix whose
  -- length it returns.
  pub so_write-Sent :
      (bytes : List ℕ) (m : Machine e)
      → m.sock.fd_ ≡ fd
      → Ensures (Sent (λ (x : Machine e). law.out x.kernel) bytes m) (so_write e bytes m)
  unfolding so_write
  so_write-Sent bytes m own =
      Ensures-mono (Extended bytes 0 m) (Sent (λ (x : Machine e). law.out x.kernel) bytes m)
        (so_write e bytes m)
        (λ n m' (j, counted, within, sent).
          let e' : n ≡ j = omega (arith, counted) in rw e' (within, sent))
        (so_write_loop-Extended (suc (length bytes)) bytes 0 m (omega arith) own)

-- The socket as a writer, for those that write through it.
abbrev pub linux_writer : (e : Env) → Writer (Machine e)
linux_writer e = record { so_write = so_write e; write_enabled = λ m. m.sock.write_enabled_ }

-- It keeps the contract of a writer while it runs the descriptor.
abbrev pub linux_writer-SendsPrefix :
    (e : Env) {fd : Fd} (law : WriteLaws e.linux e.epollfd fd)
    → IsQuiet e law.out
    → SendsPrefix (linux_writer e)
linux_writer-SendsPrefix e {fd} law quiet = record {
  out = λ m. law.out m.kernel;
  IsReady = λ m. m.sock.fd_ ≡ fd;
  so_write_Sent = so_write-Sent e law quiet;
}
