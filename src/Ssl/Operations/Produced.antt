-- ===== src/Ssl/Operations/Produced.antt =====
-- The ciphertext of the outgoing direction: all that OpenSSL has made has gone down, or waits in the BIO pair.
use acpp_network.Prelude.{
  ℕ, zero, suc, ◌+◌, ◌≡◌, refl, sym, ap, ◌∙◌, List, [], ◌∷◌, ◌++◌, Result, Action, ok, if_cases,
  append_assoc, append-nil, length, ltb, drop, is_empty, pos_part, continue_inv, continue, true,
}
use acpp_network.Ssl.{
  OpenSsl, Env, Machine, Status, closed, connecting, connected, peer_closing, closing, with_ssl,
  write_down, drain, drain_loop, bio_size, buffer_size,
}
use acpp_network.Ssl.Operations.{write_loop, write_at, write}
use acpp_network.Ssl.Operations.Flush.{downs, downs-append, SslLaws}

-- `produced` is all the ciphertext of a session; `decode` gives the plain bytes that its records carry.
pub record SendLaws (o : OpenSsl) (out : SslLaws o) : Type 0 where
  pub produced : o.Ssl → List ℕ
  pub decode : List ℕ → List ℕ
  pub decodes : (s : o.Ssl) → decode (produced s) ≡ out.sealed s
  pub read_produced : (s : o.Ssl) → produced (o.bio_read buffer_size s).1 ≡ produced s
  -- SSL_write puts what it makes behind what waits.
  pub write_produced :
      (bytes : List ℕ) (s : o.Ssl)
      → (c : List ℕ) × (produced (o.ssl_write bytes s).1 ≡ produced s ++ c)
        × (out.cipher (o.ssl_write bytes s).1 ≡ out.cipher s ++ c)

module _ (e : Env) (out : SslLaws e.openssl) (law : SendLaws e.openssl out) where
  abbrev pub IsLinked : Machine e → Type 0
  IsLinked m = law.produced m.stream.ssl_ ≡ downs m.acts ++ out.cipher m.stream.ssl_

  -- The status is what it was, no ciphertext is lost or repeated, and some more may have gone down.
  pub record Goes (m m' : Machine e) : Type 0 where
    pub status : m'.stream.status_ ≡ m.stream.status_
    pub linked : IsLinked m'
    pub new : List ℕ
    pub grows : downs m'.acts ≡ downs m.acts ++ new

  Goes-none : (m : Machine e) → IsLinked m → Goes m m
  Goes-none m h = record { status = refl; linked = h; new = []; grows = sym (append-nil _) }

  Goes-trans : (m m₁ m₂ : Machine e) → Goes m m₁ → Goes m₁ m₂ → Goes m m₂
  Goes-trans m m₁ m₂ g h = record {
    status = h.status ∙ g.status;
    linked = h.linked;
    new = g.new ++ h.new;
    grows = h.grows ∙ ap (λ x. x ++ h.new) g.grows ∙ append_assoc (downs m.acts) g.new h.new;
  }

  -- One BIO_read, and the write of what it gave.
  read-Goes :
      (m : Machine e)
      → IsLinked m
      → let (bytes, s) = e.bio_read buffer_size m.stream.ssl_ in
        Goes m (write_down e bytes (with_ssl e s m))
  read-Goes m h =
      let (bytes, s) = e.bio_read buffer_size m.stream.ssl_ in
      let r = out.reads m.stream.ssl_ in
      record {
        status = refl;
        linked =
            law.read_produced m.stream.ssl_
            ∙ h
            ∙ ap (λ x. downs m.acts ++ x) r.front
            ∙ sym (append_assoc (downs m.acts) bytes (out.cipher s))
            ∙ ap (λ x. x ++ out.cipher s) (sym (downs-append m.acts bytes));
        new = bytes;
        grows = downs-append m.acts bytes;
      }

  -- The last BIO_read, which gives nothing.
  stop-Goes :
      (m : Machine e) (bytes : List ℕ)
      → is_empty bytes ≡ true
      → (s : e.Ssl) → Goes m (write_down e bytes (with_ssl e s m))
      → Goes m (with_ssl e s m)
  stop-Goes m [] h s g = record {
    status = refl;
    linked =
        g.linked ∙ ap (λ x. x ++ out.cipher s) (downs-append m.acts [] ∙ append-nil (downs m.acts));
    new = [];
    grows = sym (append-nil _);
  }
  stop-Goes m (b ∷ bytes) h s g = absurd (cc)

  abbrev pub After : {A : Type 0} → Machine e → Result A × Machine e → Type 0
  After m x = Goes m x.1

  drain_loop-Goes : (fuel : ℕ) (m : Machine e) → IsLinked m → After m (drain_loop e fuel m)
  unfolding drain_loop
  drain_loop-Goes zero m h = Goes-none m h
  drain_loop-Goes (suc fuel) m h =
      let (bytes, s) = e.bio_read buffer_size m.stream.ssl_ in
      let g = read-Goes m h in
      if_cases (After m) (is_empty bytes) (λ none_left. stop-Goes m bytes none_left s g)
        (λ _.
          Goes-trans m (write_down e bytes (with_ssl e s m)) _ g
            (drain_loop-Goes fuel (write_down e bytes (with_ssl e s m)) g.linked))

  drain-Goes : (m : Machine e) → IsLinked m → After m (drain e m)
  unfolding drain
  drain-Goes m h = drain_loop-Goes (suc bio_size) m h

  -- What follows a call that went so.
  then-Goes :
      {A B : Type 0} (m : Machine e) (x : Result A × Machine e) (f : A → Action (Machine e) B)
      → After m x
      → ((a : A) (m₁ : Machine e) → IsLinked m₁ → After m₁ (f a m₁))
      → After m (continue x f)
  then-Goes m x f g h =
      continue_inv (Goes m) (Goes m) x f g (λ _ k. k)
        (λ a m₁ k. Goes-trans m m₁ _ k (h a m₁ k.linked))

  -- One SSL_write.
  seal-Goes :
      (bytes : List ℕ) (m : Machine e)
      → IsLinked m
      → Goes m (with_ssl e (e.ssl_write bytes m.stream.ssl_).1 m)
  seal-Goes bytes m h =
      let (c, p, w) = law.write_produced bytes m.stream.ssl_ in
      record {
        status = refl;
        linked =
            p
            ∙ ap (λ x. x ++ c) h
            ∙ append_assoc (downs m.acts) (out.cipher m.stream.ssl_) c
            ∙ ap (λ x. downs m.acts ++ x) (sym w);
        new = [];
        grows = sym (append-nil _);
      }

  write_loop-Goes :
      (fuel : ℕ) (bytes : List ℕ) (total : ℕ) (m : Machine e)
      → IsLinked m
      → After m (write_loop e fuel bytes total m)
  unfolding write_loop
  write_loop-Goes zero bytes total m h = Goes-none m h
  write_loop-Goes (suc fuel) bytes total m h =
      let (r, s) = e.ssl_write (drop total bytes) m.stream.ssl_ in
      let m₁ = with_ssl e s m in
      let g = seal-Goes (drop total bytes) m h in
      if_cases (After m) (ltb total (length bytes))
        (λ _.
          if_cases (After m) (ltb 0 (pos_part r))
            (λ _. Goes-trans m m₁ _ g (
              then-Goes m₁ (drain e m₁) (λ _. write_loop e fuel bytes (total + pos_part r))
                (drain-Goes m₁ g.linked)
                (λ _ m₂ h₂. write_loop-Goes fuel bytes (total + pos_part r) m₂ h₂)))
            (λ _. g))
        (λ _. Goes-none m h)

  write_at-Goes :
      (s : Status) (bytes : List ℕ) (m : Machine e) → IsLinked m → After m (write_at e s bytes m)
  unfolding write_at
  write_at-Goes connected bytes m h =
      then-Goes m (write_loop e (suc (length bytes)) bytes 0 m) (λ _. drain e)
        (write_loop-Goes (suc (length bytes)) bytes 0 m h) (λ _ m₁ h₁. drain-Goes m₁ h₁)
  write_at-Goes closed bytes m h = Goes-none m h
  write_at-Goes connecting bytes m h = Goes-none m h
  write_at-Goes peer_closing bytes m h = Goes-none m h
  write_at-Goes closing bytes m h = Goes-none m h

  -- However it ends, `write` keeps the ciphertext whole, and the status.
  pub write-Goes : (bytes : List ℕ) (m : Machine e) → IsLinked m → After m (write e bytes m)
  unfolding write
  write-Goes bytes m h =
      then-Goes m (write_at e m.stream.status_ bytes m) (λ _ m'. (ok (length bytes), m'))
        (write_at-Goes m.stream.status_ bytes m h) (λ _ m₁ h₁. Goes-none m₁ h₁)
