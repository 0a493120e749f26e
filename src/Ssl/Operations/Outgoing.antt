-- ===== src/Ssl/Operations/Outgoing.antt =====
-- The outgoing direction of the encrypting layer: `write`, whose loop hands the bytes to SSL_write.
use acpp_network.Prelude.{
  ℕ, zero, suc, ◌+◌, ◌-◌, ◌≤◌, ◌<◌, ◌≡◌, refl, sym, ap, ◌∙◌, subst, false, List, [], ◌++◌, ok,
  Ensures, continue-Ensures, Ensures-mono, Ensures-and, if_cases, arith, ltb, ltb→lt, ltb→ge,
  length, length-drop, take, drop, take-add, drop-add, ◌⊎◌, inl, inr, append_assoc, append-nil,
  pos_part, ◌>>=◌,
}
use acpp_network.Ssl.{Env, Machine, connected, with_ssl, drain}
use acpp_network.Ssl.Operations.{write_loop, write_at, write}
use acpp_network.Ssl.Operations.Flush.{SslLaws, Flushed, drain-Flushed, cipher_of, sealed_of}

zero_of : (n : ℕ) → ltb 0 n ≡ false → n ≡ 0
zero_of n h = let z = ltb→ge 0 n h in omega arith

module _ (e : Env) (l : SslLaws e.openssl) where
  -- The byte that a loop is at and its state, after so many rounds from `total` on, each with its SSL_write and its
  -- flush.
  pub after_rounds : ℕ → List ℕ → ℕ → Machine e → ℕ × Machine e
  after_rounds zero bytes total m = (total, m)
  after_rounds (suc j) bytes total m =
      let (r, s) = e.ssl_write (drop total bytes) m.stream.ssl_ in
      after_rounds j bytes (total + pos_part r) (drain e (with_ssl e s m)).1

  -- After some rounds the loop is at the byte `k`, which is the end, or at which the next call of SSL_write of this
  -- loop takes nothing.
  abbrev pub Ended : List ℕ → ℕ → Machine e → ℕ → Type 0
  Ended bytes total m k =
      (j : ℕ) × ((after_rounds j bytes total m).0 ≡ k)
      × ((k ≡ length bytes)
          ⊎ (pos_part (e.ssl_write (drop k bytes) (after_rounds j bytes total m).1.stream.ssl_).0
              ≡ 0))

  -- What the rounds of `write` do from `total` on: the record layer takes `n` more bytes.
  pub record Takes (bytes : List ℕ) (total : ℕ) (m : Machine e) (u : Unit {0}) (m' : Machine e)
      : Type 0 where
    pub n : ℕ
    pub within : total + n ≤ length bytes
    pub seals : sealed_of e l m' ≡ sealed_of e l m ++ take n (drop total bytes)
    pub ended : Ended bytes total m (total + n)

  -- It stops at once.
  Takes-none :
      (bytes : List ℕ) (total : ℕ) (m : Machine e) (u : Unit {0}) (m' : Machine e)
      → total ≤ length bytes
      → sealed_of e l m' ≡ sealed_of e l m
      → Ended bytes total m total
      → Takes bytes total m u m'
  Takes-none bytes total m u m' h k d = record {
    n = 0;
    within = omega arith;
    seals = k ∙ sym (append-nil (sealed_of e l m));
    ended = subst (Ended bytes total m) (let e : total ≡ total + 0 = omega arith in e) d;
  }

  -- A round that takes bytes, and then the others.
  Takes-more :
      (bytes : List ℕ) (total : ℕ) (m m₂ m₃ : Machine e) (u : Unit {0})
      → let (r, s) = e.ssl_write (drop total bytes) m.stream.ssl_ in
        let n = pos_part r in
        m₂ ≡ (drain e (with_ssl e s m)).1
        → n ≤ length (drop total bytes)
        → sealed_of e l m₂ ≡ sealed_of e l m ++ take n (drop total bytes)
        → Takes bytes (total + n) m₂ u m₃
        → Takes bytes total m u m₃
  unfolding after_rounds
  Takes-more bytes total m m₂ m₃ u e₂ h k t =
      let rest = drop total bytes in
      let n = pos_part (e.ssl_write rest m.stream.ssl_).0 in
      let went = subst (λ x. Ended bytes (total + n) x (total + n + t.n)) e₂ t.ended in
      record {
        n = n + t.n;
        within = (let w = t.within in omega arith);
        seals =
            t.seals
            ∙ ap (λ x. x ++ take t.n (drop (total + n) bytes)) k
            ∙ append_assoc (sealed_of e l m) (take n rest) (take t.n (drop (total + n) bytes))
            ∙ ap (λ x. sealed_of e l m ++ (take n rest ++ take t.n x)) (drop-add total n bytes)
            ∙ ap (λ x. sealed_of e l m ++ x) (sym (take-add n t.n rest h));
        ended =
            subst (Ended bytes total m)
              (let e : total + n + t.n ≡ total + (n + t.n) = omega arith in e)
              (suc went.0, went.1, went.2);
      }

  write_loop-Takes :
      (fuel : ℕ) (bytes : List ℕ) (total : ℕ) (m : Machine e)
      → total ≤ length bytes
      → length bytes - total < fuel
      → Ensures (Takes bytes total m) (write_loop e fuel bytes total m)
  unfolding write_loop after_rounds
  write_loop-Takes zero bytes total m h f = absurd (omega arith)
  write_loop-Takes (suc fuel) bytes total m h f =
      let (r, s) = e.ssl_write (drop total bytes) m.stream.ssl_ in
      let m₁ = with_ssl e s m in
      let n = pos_part r in
      let w = l.writes (drop total bytes) m.stream.ssl_ in
      if_cases (Ensures (Takes bytes total m)) (ltb total (length bytes))
        (λ more.
          if_cases (Ensures (Takes bytes total m)) (ltb 0 n)
            (λ some_taken.
              continue-Ensures (λ u m₂. Flushed e l m₁ u m₂ × (m₂ ≡ (drain e m₁).1))
                (Takes bytes total m) _ (drain e m₁)
                (Ensures-and (Flushed e l m₁) (λ m₂. m₂ ≡ (drain e m₁).1) (drain e m₁)
                  (drain-Flushed e l m₁) refl)
                (λ u m₂ fl.
                  Ensures-mono (Takes bytes (total + n) m₂) (Takes bytes total m)
                    (write_loop e fuel bytes (total + n) m₂)
                    (λ u m₃ t.
                      Takes-more bytes total m m₂ m₃ u fl.1 w.within (fl.0.seals ∙ w.prefix) t)
                    (write_loop-Takes fuel bytes (total + n) m₂
                      (let x = w.within in omega (arith, length-drop total bytes))
                      (let y = ltb→lt 0 n some_taken in
                        let z = ltb→lt total (length bytes) more in omega arith))))
            (λ none_taken.
              Takes-none bytes total m tt m₁ h
                (w.prefix
                  ∙ ap (λ k. sealed_of e l m ++ take k (drop total bytes)) (zero_of n none_taken)
                  ∙ append-nil (sealed_of e l m))
                (0, refl, inr (zero_of n none_taken))))
        (λ done.
          Takes-none bytes total m tt m h refl
            (0, refl, inl (let z = ltb→ge total (length bytes) done in omega arith)))

  -- A write of a connected layer: the record layer has taken the first `n` bytes, no ciphertext waits,
  -- and the result is the whole length.
  pub record Written (bytes : List ℕ) (m : Machine e) (r : ℕ) (m' : Machine e) : Type 0 where
    pub n : ℕ
    pub within : n ≤ length bytes
    pub seals : sealed_of e l m' ≡ sealed_of e l m ++ take n bytes
    pub ended : Ended bytes 0 m n
    pub flushed : cipher_of e l m' ≡ []
    pub result : r ≡ length bytes

  -- A loop that begins at the first byte, and the flush after it.
  write-finish :
      (bytes : List ℕ) (m m₁ m₂ : Machine e) (u u' : Unit {0})
      → Takes bytes 0 m u m₁
      → Flushed e l m₁ u' m₂
      → Written bytes m (length bytes) m₂
  write-finish bytes m m₁ m₂ u u' t f =
      let e : 0 + t.n ≡ t.n = omega arith in
      record {
        n = t.n;
        within = (let w = t.within in omega arith);
        seals = f.seals ∙ t.seals;
        ended = subst (Ended bytes 0 m) e t.ended;
        flushed = f.emptied;
        result = refl;
      }

  write_at-Written :
      (bytes : List ℕ) (m : Machine e)
      → Ensures (λ _ m'. Written bytes m (length bytes) m') (write_at e connected bytes m)
  unfolding write_at
  write_at-Written bytes m =
      continue-Ensures (Takes bytes 0 m) (λ _ m'. Written bytes m (length bytes) m') _
        (write_loop e (suc (length bytes)) bytes 0 m)
        (write_loop-Takes (suc (length bytes)) bytes 0 m (omega arith) (omega arith))
        (λ u m₁ t.
          Ensures-mono (Flushed e l m₁) (λ _ m'. Written bytes m (length bytes) m') (drain e m₁)
            (λ u' m₂ f. write-finish bytes m m₁ m₂ u u' t f) (drain-Flushed e l m₁))

  -- On a connected layer `write` returns, with the whole length as its result; the record layer has taken
  -- a prefix of the bytes, which is all of them unless, after the rounds that took this prefix, the next call of
  -- SSL_write of the loop takes nothing; and no ciphertext waits.
  pub write-Written :
      (bytes : List ℕ) (m : Machine e)
      → m.stream.status_ ≡ connected
      → Ensures (Written bytes m) (write e bytes m)
  unfolding write
  write-Written bytes m h =
      subst
        (λ s.
          Ensures (Written bytes m) ((write_at e s bytes >>= λ _ m'. (ok (length bytes), m')) m))
        (sym h)
        (continue-Ensures (λ _ m'. Written bytes m (length bytes) m') (Written bytes m) _
          (write_at e connected bytes m) (write_at-Written bytes m) (λ _ m' w. w))
