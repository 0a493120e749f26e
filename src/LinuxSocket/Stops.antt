-- ===== src/LinuxSocket/Stops.antt =====
-- Why a write of a Linux socket stops short: either the kernel's buffer is full, and the loop will be
-- woken when it drains, or `send` failed, and the error callback was called if it is set.
use acpp_network.Prelude.{
  ℕ, zero, suc, ◌+◌, ◌≤◌, ◌<◌, ◌≡◌, refl, subst, sym, ◌∙◌, ◌≢◌, ◌⊎◌, inl, inr, false, List, Option,
  none, some, arith, Ensures, Ensures-mono, length, take, drop, min, length-take, length-drop, ◌==◌,
  if_cases, ==→eq, ==→pos, ==→ne,
}
use acpp_network.Posix.{Fd}
use acpp_network.SocketTypes.{hint_send}
use acpp_network.LinuxSocket.{
  Env, Machine, error, so_write_loop, so_write_internal, so_write, after_send, send_failed,
  invoke_if, eagain, write_chunk,
}
use acpp_network.LinuxSocket.Laws.{WriteLaws, Sends}
use acpp_network.LinuxSocket.Registered.{IsWakeful, ask_writable-IsWakeful}

module _ (e : Env) {fd : Fd} (law : WriteLaws e.linux e.epollfd fd) where
  -- EAGAIN: writing is off, and EPOLLOUT is asked for.
  abbrev pub Blocked : Machine e → Type 0
  Blocked m' = IsWakeful e law m' × (m'.sock.write_enabled_ ≡ false)

  -- Another error, with the `errno` of a kernel state `k`: the callback gets it, if it is set.
  abbrev pub Failed : Machine e → Machine e → Type 0
  Failed m m' =
      (k : e.Kernel) × (e.errno k ≢ eagain)
      × (m'
          ≡ invoke_if e m.sock.callbacks_.on_error (error (e.errno k) hint_send)
              (record m { kernel = k }))

  -- The sends so far changed nothing but the kernel.
  abbrev Going : Machine e → Machine e → Type 0
  Going m m' = IsWakeful e law m' × (m' ≡ record m { kernel = m'.kernel })

  abbrev InternalStop : List ℕ → Machine e → ℕ × Machine e → Type 0
  InternalStop chunk m (n, m') =
      (n ≤ length chunk)
      × (n ≡ 0 → (length chunk ≡ 0) ⊎ Blocked m' ⊎ Failed m m')
      × (0 < n → Going m m')

  send_failed-Stop :
      (m : Machine e) → IsWakeful e law m → Blocked (send_failed e m) ⊎ Failed m (send_failed e m)
  unfolding send_failed
  send_failed-Stop m v =
      if_cases (λ m'. Blocked m' ⊎ Failed m m') (e.errno m.kernel == eagain)
        (λ _. inl (ask_writable-IsWakeful e law m v.own v.synced))
        (λ other. inr (m.kernel, ==→ne _ _ other, refl))

  -- Another state of the kernel in which the entry of the descriptor is the same.
  kernel-IsWakeful :
      (k : e.Kernel) (m : Machine e)
      → law.registered k ≡ law.registered m.kernel
      → IsWakeful e law m
      → IsWakeful e law (record m { kernel = k })
  kernel-IsWakeful k m r v = record {
    own = v.own;
    synced = rw r v.synced;
    armed = λ off. r ∙ v.armed off;
  }

  after_send-InternalStop :
      (x : Option ℕ × e.Kernel) (chunk : List ℕ) (m : Machine e)
      → IsWakeful e law m
      → Sends law.out chunk m.kernel x
      → law.registered x.1 ≡ law.registered m.kernel
      → InternalStop chunk m (after_send e x m)
  unfolding after_send
  after_send-InternalStop (some n, k) chunk m v h r =
      (h.0, λ z. inl (ground arith), λ p. (kernel-IsWakeful k m r v, refl))
  after_send-InternalStop (none, k) chunk m v h r = (
    omega arith,
    λ _. inr (send_failed-Stop (record m { kernel = k }) (kernel-IsWakeful k m r v)),
    λ p. absurd (omega arith),
  )

  so_write_internal-InternalStop :
      (chunk : List ℕ) (m : Machine e)
      → IsWakeful e law m
      → InternalStop chunk m (so_write_internal e chunk m)
  unfolding so_write_internal
  so_write_internal-InternalStop chunk m v =
      after_send-InternalStop (e.send m.sock.fd_ chunk m.kernel) chunk m v
        (subst (λ f. Sends law.out chunk m.kernel (e.send f chunk m.kernel)) (sym v.own)
          (law.send_Sends chunk m.kernel))
        (subst (λ f. law.registered (e.send f chunk m.kernel).1 ≡ law.registered m.kernel)
          (sym v.own) (law.send_registered chunk m.kernel))

  abbrev Stops : List ℕ → ℕ → Machine e → ℕ → Machine e → Type 0
  Stops bytes result m n m' = (n ≡ result + length bytes) ⊎ Blocked m' ⊎ Failed m m'

  Stops-step :
      (bytes : List ℕ) (result n i : ℕ) (m m' m'' : Machine e)
      → n ≤ length bytes
      → m' ≡ record m { kernel = m'.kernel }
      → Stops (drop n bytes) (result + n) m' i m''
      → Stops bytes result m i m''
  Stops-step bytes result n i m m' m'' h going (inl all) =
      inl (omega (arith, all, length-drop n bytes))
  Stops-step bytes result n i m m' m'' h going (inr (inl blocked)) = inr (inl blocked)
  Stops-step bytes result n i m m' m'' h going (inr (inr failed)) =
      inr (inr (subst (λ r. Failed r m'') going failed))

  -- The loop ends when a call returns 0.
  ended-Stops :
      (bytes : List ℕ) (result : ℕ) (m m' : Machine e)
      → (length (take (min (length bytes) write_chunk) bytes) ≡ 0) ⊎ Blocked m' ⊎ Failed m m'
      → Stops bytes result m result m'
  ended-Stops bytes result m m' (inl empty) =
      inl (omega (arith, empty, length-take (min (length bytes) write_chunk) bytes))
  ended-Stops bytes result m m' (inr other) = inr other

  so_write_loop-Stops :
      (fuel : ℕ) (bytes : List ℕ) (result : ℕ) (m : Machine e)
      → length bytes < fuel
      → IsWakeful e law m
      → Ensures (Stops bytes result m) (so_write_loop e fuel bytes result m)
  unfolding so_write_loop
  so_write_loop-Stops zero bytes result m h v = absurd (omega arith)
  so_write_loop-Stops (suc fuel) bytes result m h v =
      let len_aux = min (length bytes) write_chunk in
      let chunk = take len_aux bytes in
      let x = so_write_internal e chunk m in
      let stop = so_write_internal-InternalStop chunk m v in
      let l = length-take len_aux bytes in
      let within : x.0 ≤ length bytes = omega (arith, l, stop.0) in
      if_cases (Ensures (Stops bytes result m)) (x.0 == 0)
        (λ ended. ended-Stops bytes result m x.1 (stop.1 (==→eq _ _ ended)))
        (λ more.
          let going = stop.2 (==→pos x.0 more) in
          Ensures-mono (Stops (drop x.0 bytes) (result + x.0) x.1) (Stops bytes result m)
            (so_write_loop e fuel (drop x.0 bytes) (result + x.0) x.1)
            (λ i m'' p. Stops-step bytes result x.0 i m x.1 m'' within going.1 p)
            (so_write_loop-Stops fuel (drop x.0 bytes) (result + x.0) x.1
              (omega (arith, length-drop x.0 bytes, ==→pos x.0 more, within)) going.0))

  Stops-all :
      (bytes : List ℕ) (m : Machine e) (n : ℕ) (m' : Machine e)
      → Stops bytes 0 m n m'
      → (n ≡ length bytes) ⊎ Blocked m' ⊎ Failed m m'
  Stops-all bytes m n m' (inl all) = inl (omega (arith, all))
  Stops-all bytes m n m' (inr other) = inr other

  -- A write on a wakeful socket returns, and takes everything, or leaves the socket blocked and
  -- wakeful, or has met an error of `send` other than EAGAIN and has called the error callback with it if that is
  -- set; if it is not set, the error is told to nobody.
  pub so_write-Stops :
      (bytes : List ℕ) (m : Machine e)
      → IsWakeful e law m
      → Ensures (λ n m'. (n ≡ length bytes) ⊎ Blocked m' ⊎ Failed m m') (so_write e bytes m)
  unfolding so_write
  so_write-Stops bytes m v =
      Ensures-mono (Stops bytes 0 m) _ (so_write e bytes m) (Stops-all bytes m)
        (so_write_loop-Stops (suc (length bytes)) bytes 0 m (omega arith) v)
