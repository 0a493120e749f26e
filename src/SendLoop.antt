-- ===== src/SendLoop.antt =====
-- The loop that the sockets of src/macos/socket_base.cpp write with: chunks are handed to a call that takes
-- a prefix, until it takes nothing.
use acpp_network.Prelude.{
  ℕ, zero, suc, ◌+◌, ◌-◌, ◌≤◌, ◌<◌, ◌≡◌, ap, ◌∙◌, subst, List, ◌++◌, arith, Action, ok, out_of_fuel,
  continue, Ensures, continue-Ensures, Ensures-mono, length, take, drop, min, length-take,
  length-drop, take-take, take-add, append_assoc, ◌==◌, if◌then◌else◌, if_cases, ==→eq, ==→pos,
}

unfoldable pub send_loop : {S : Type 0} → (List ℕ → Action S ℕ) → ℕ → ℕ → List ℕ → ℕ → Action S ℕ
send_loop internal chunk zero bytes result m = (out_of_fuel, m)
send_loop internal chunk (suc fuel) bytes result m =
    continue (internal (take (min (length bytes) chunk) bytes) m) (λ n m'.
      if n == 0
      then (ok result, m')
      else send_loop internal chunk fuel (drop n bytes) (result + n) m')

module _ {S : Type 0} (internal : List ℕ → Action S ℕ) (chunk : ℕ) (out : S → List ℕ)
    (IsReady : S → Type 0) where
  -- One call: it returns a count, that prefix was sent, and after a positive count the state is ready.
  abbrev pub Stepped : List ℕ → S → ℕ → S → Type 0
  Stepped bytes m n m' =
      (n ≤ length bytes) × (out m' ≡ out m ++ take n bytes) × (0 < n → IsReady m')

  -- The loop from a count `result` on.
  abbrev pub Extended : List ℕ → ℕ → S → ℕ → S → Type 0
  Extended bytes result m n m' =
      (j : ℕ) × (n ≡ result + j) × (j ≤ length bytes) × (out m' ≡ out m ++ take j bytes)

  chunk_prefix :
      (bytes : List ℕ) (n : ℕ) (m m' : S)
      → Stepped (take (min (length bytes) chunk) bytes) m n m'
      → (n ≤ length bytes) × (out m' ≡ out m ++ take n bytes)
  chunk_prefix bytes n m m' h =
      let len_aux = min (length bytes) chunk in
      let l = length-take len_aux bytes in
      (omega (arith, l), h.1 ∙ ap (λ x. out m ++ x) (take-take n len_aux bytes (omega (arith, l))))

  Extended-step :
      (bytes : List ℕ) (result n i : ℕ) (m m' m'' : S)
      → (n ≤ length bytes) × (out m' ≡ out m ++ take n bytes)
      → Extended (drop n bytes) (result + n) m' i m''
      → Extended bytes result m i m''
  Extended-step bytes result n i m m' m'' h (j, counted, within, sent) = (
    n + j,
    omega (arith, counted),
    omega (arith, length-drop n bytes),
    ground (
      arith,
      take-add n j bytes h.0,
      append_assoc (out m) (take n bytes) (take j (drop n bytes)),
    ),
  )

  pub send_loop-Extended :
      ((bytes : List ℕ) (m : S) → IsReady m → Ensures (Stepped bytes m) (internal bytes m))
      → (fuel : ℕ) (bytes : List ℕ) (result : ℕ) (m : S) → length bytes < fuel
      → IsReady m
      → Ensures (Extended bytes result m) (send_loop internal chunk fuel bytes result m)
  unfolding send_loop
  send_loop-Extended step zero bytes result m h ready = absurd (omega arith)
  send_loop-Extended step (suc fuel) bytes result m h ready =
      let piece = take (min (length bytes) chunk) bytes in
      continue-Ensures (Stepped piece m) (Extended bytes result m) _ (internal piece m)
        (step piece m ready)
        (λ n m' s.
          let prefix = chunk_prefix bytes n m m' s in
          if_cases (Ensures (Extended bytes result m)) (n == 0)
            (λ ended. (
              0,
              omega arith,
              omega arith,
              subst (λ k. out m' ≡ out m ++ take k piece) (==→eq _ _ ended) s.1,
            ))
            (λ more.
              Ensures-mono (Extended (drop n bytes) (result + n) m') (Extended bytes result m)
                (send_loop internal chunk fuel (drop n bytes) (result + n) m')
                (λ i m'' p. Extended-step bytes result n i m m' m'' prefix p)
                (send_loop-Extended step fuel (drop n bytes) (result + n) m'
                  (omega (arith, length-drop n bytes, ==→pos n more, prefix.0))
                  (s.2 (==→pos n more)))))

-- Where each call takes as much as there is room for, the loop does too, whatever the size of a chunk is.
module _ {S : Type 0} (internal : List ℕ → Action S ℕ) (chunk : ℕ) (room : S → ℕ)
    (IsReady : S → Type 0) where
  abbrev pub Fills : List ℕ → S → ℕ → S → Type 0
  Fills bytes m n m' =
      (n ≡ min (room m) (length bytes)) × (room m' ≡ room m - n) × (0 < n → IsReady m')

  pub send_loop-Fills :
      0 < chunk
      → ((bytes : List ℕ) (m : S) → IsReady m → Ensures (Fills bytes m) (internal bytes m))
      → (fuel : ℕ) (bytes : List ℕ) (result : ℕ) (m : S) → length bytes < fuel
      → IsReady m
      → Ensures
          (λ n m'. n ≡ result + min (room m) (length bytes))
          (send_loop internal chunk fuel bytes result m)
  unfolding send_loop
  send_loop-Fills some_chunk step zero bytes result m h ready = absurd (omega arith)
  send_loop-Fills some_chunk step (suc fuel) bytes result m h ready =
      let piece = take (min (length bytes) chunk) bytes in
      let l = length-take (min (length bytes) chunk) bytes in
      continue-Ensures (Fills piece m) (λ n m'. n ≡ result + min (room m) (length bytes)) _
        (internal piece m) (step piece m ready)
        (λ n m' s.
          if_cases (Ensures (λ r t. r ≡ result + min (room m) (length bytes))) (n == 0)
            (λ ended. (let z = ==→eq n 0 ended in let a = s.0 in omega arith))
            (λ more.
              (let p = ==→pos n more in
                let a = s.0 in
                Ensures-mono (λ r t. r ≡ result + n + min (room m') (length (drop n bytes)))
                  (λ r t. r ≡ result + min (room m) (length bytes))
                  (send_loop internal chunk fuel (drop n bytes) (result + n) m')
                  (λ r t q. (let b = s.1 in omega (arith, length-drop n bytes)))
                  (send_loop-Fills some_chunk step fuel (drop n bytes) (result + n) m'
                    (omega (arith, length-drop n bytes)) (s.2 p)))))
