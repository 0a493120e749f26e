-- ===== src/Ssl/Operations/Loops.antt =====
-- The loops of the encrypting layer and its status: they set it nowhere, so it changes in the calls of
-- the layer above only.
use acpp_network.Prelude.{
  ℕ, zero, suc, ◌≡◌, refl, Bool, List, Result, ok, throw, out_of_fuel, Action, continue, if_cases,
  if◌then◌else◌, true, false, ltb, length, is_empty, ℤ, to_size, ◌+ℤ◌, ◌+◌, drop, pos_part,
}
use acpp_network.Ssl.{
  Env, Machine, Stream, Act, Status, call_up, with_ssl, drain, drain_loop, deliver, deliver_loop,
  feed, bio_size, write_down, up_received, buffer_size,
}
use acpp_network.Ssl.Operations.{feed_loop, write_loop}

-- A reflexive and transitive relation of the status before and after a call of the layer above.
pub record Relation (e : Env) : Type 1 where
  pub R : Status → Status → Type 0
  pub same : (s : Status) → R s s
  pub trans : (s t u : Status) → R s t → R t u → R s u
  pub keeps : (a : Act) (t : Stream e.openssl) → R t.status_ (e.app a t).0.status_

module _ (e : Env) (k : Relation e) where
  -- A call that began at `m` has changed the status by `R`.
  abbrev pub Moved : {A : Type 0} → Machine e → Result A × Machine e → Type 0
  Moved m x = k.R m.stream.status_ x.1.stream.status_

  pub continue-Moved :
      {A B : Type 0} (m : Machine e) (x : Result A × Machine e) (f : A → Action (Machine e) B)
      → Moved m x
      → ((a : A) (m' : Machine e) → Moved m' (f a m'))
      → Moved m (continue x f)
  continue-Moved m (ok a, m') f h g = k.trans _ _ _ h (g a m')
  continue-Moved m (throw x, m') f h g = h
  continue-Moved m (out_of_fuel, m') f h g = h

  drain_loop-Moved : (fuel : ℕ) (m : Machine e) → Moved m (drain_loop e fuel m)
  unfolding drain_loop
  drain_loop-Moved zero m = k.same _
  drain_loop-Moved (suc fuel) m =
      let (bytes, s) = e.bio_read buffer_size m.stream.ssl_ in
      if_cases (Moved m) (is_empty bytes) (λ _. k.same _)
        (λ _. drain_loop-Moved fuel (write_down e bytes (with_ssl e s m)))

  pub drain-Moved : (m : Machine e) → Moved m (drain e m)
  unfolding drain
  drain-Moved m = drain_loop-Moved (suc bio_size) m

  pub call_up-Moved :
      (a : Act) (m : Machine e) → k.R m.stream.status_ (call_up e a m).stream.status_
  unfolding call_up
  call_up-Moved a m = k.keeps a m.stream

  deliver_loop-Moved : (fuel : ℕ) (m : Machine e) → Moved m (deliver_loop e fuel m)
  unfolding deliver_loop
  deliver_loop-Moved zero m = k.same _
  deliver_loop-Moved (suc fuel) m =
      let (bytes, s) = e.ssl_read buffer_size m.stream.ssl_ in
      if_cases (Moved m) (is_empty bytes) (λ _. k.same _)
        (λ _.
          k.trans _ _ _ (call_up-Moved (up_received bytes) (with_ssl e s m))
            (deliver_loop-Moved fuel (call_up e (up_received bytes) (with_ssl e s m))))

  pub deliver-Moved : (m : Machine e) → Moved m (deliver e m)
  unfolding deliver
  deliver-Moved m = deliver_loop-Moved e.read_fuel m

  pub feed-status :
      (bytes : List ℕ) (m : Machine e) → (feed e bytes m).stream.status_ ≡ m.stream.status_
  unfolding feed
  feed-status bytes m =
      if_cases (λ (x : Machine e). x.stream.status_ ≡ m.stream.status_) (is_empty bytes) (λ _. refl)
        (λ _. refl)

  pub tell-Moved :
      (b : Bool) (a : Act) (m : Machine e) → Moved m (deliver e (if b then call_up e a m else m))
  tell-Moved true a m = k.trans _ _ _ (call_up-Moved a m) (deliver-Moved _)
  tell-Moved false a m = deliver-Moved m

  pub feed_loop-Moved :
      (fuel : ℕ) (bytes : List ℕ) (tot_n : ℤ) (m : Machine e)
      → Moved m (feed_loop e fuel bytes tot_n m)
  unfolding feed_loop
  feed_loop-Moved zero bytes tot_n m = k.same _
  feed_loop-Moved (suc fuel) bytes tot_n m =
      let (n, s) = e.bio_write (drop (to_size tot_n) bytes) m.stream.ssl_ in
      let m' = with_ssl e s m in
      if_cases (Moved m) (ltb (to_size tot_n) (length bytes))
        (λ _. continue-Moved m' (deliver e m') _ (deliver-Moved m') (λ _ m₁.
          continue-Moved m₁ (drain e m₁) _ (drain-Moved m₁)
            (λ _ m₂. feed_loop-Moved fuel bytes (tot_n +ℤ n) m₂)))
        (λ _. k.same _)

  pub write_loop-Moved :
      (fuel : ℕ) (bytes : List ℕ) (total : ℕ) (m : Machine e)
      → Moved m (write_loop e fuel bytes total m)
  unfolding write_loop
  write_loop-Moved zero bytes total m = k.same _
  write_loop-Moved (suc fuel) bytes total m =
      let (r, s) = e.ssl_write (drop total bytes) m.stream.ssl_ in
      let m' = with_ssl e s m in
      if_cases (Moved m) (ltb total (length bytes))
        (λ _.
          if_cases (Moved m) (ltb 0 (pos_part r))
            (λ _.
              continue-Moved m' (drain e m') _ (drain-Moved m')
                (λ _ m₁. write_loop-Moved fuel bytes (total + pos_part r) m₁))
            (λ _. k.same _))
        (λ _. k.same _)
