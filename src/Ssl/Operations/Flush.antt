-- ===== src/Ssl/Operations/Flush.antt =====
-- What waits in the BIO pair goes down: `drain`, over what OpenSSL documents of a BIO pair and of
-- SSL_write.
use acpp_network.Prelude.{
  ℕ, zero, suc, ◌≤◌, ◌<◌, ◌≡◌, refl, sym, ap, ◌∙◌, true, false, List, [], ◌∷◌, ◌++◌, Ensures,
  Ensures-mono, if_cases, arith, length, length-append, take, is_empty, append_assoc, append-nil,
  pos_part,
}
use mathlib.Core.Bool.{false≢true}
use acpp_network.Ssl.{
  OpenSsl, Env, Machine, Act, down, up_connected, up_disconnected, up_received, with_ssl,
  write_down, drain, drain_loop, bio_size, buffer_size,
}

-- The bytes that were written to the layer below, in order.
abbrev pub downs : List Act → List ℕ
downs [] = []
downs (down bytes ∷ acts) = bytes ++ downs acts
downs (up_connected ∷ acts) = downs acts
downs (up_disconnected ∷ acts) = downs acts
downs (up_received bytes ∷ acts) = downs acts

pub downs-append :
    (acts : List Act) (bytes : List ℕ) → downs (acts ++ down bytes ∷ []) ≡ downs acts ++ bytes
downs-append [] bytes = append-nil bytes
downs-append (down b ∷ acts) bytes =
    ap (λ x. b ++ x) (downs-append acts bytes) ∙ sym (append_assoc b (downs acts) bytes)
downs-append (up_connected ∷ acts) bytes = downs-append acts bytes
downs-append (up_disconnected ∷ acts) bytes = downs-append acts bytes
downs-append (up_received b ∷ acts) bytes = downs-append acts bytes

-- `cipher` is what waits in the BIO pair to be written below, and `sealed` the plain bytes that
-- SSL_write has taken so far.
pub record View (o : OpenSsl) : Type 0 where
  pub cipher : o.Ssl → List ℕ
  pub sealed : o.Ssl → List ℕ

module _ (o : OpenSsl) (v : View o) where
  -- BIO_read takes bytes from the front, and none only if none wait.
  pub record Reads (s : o.Ssl) (bytes : List ℕ) (s' : o.Ssl) : Type 0 where
    pub front : v.cipher s ≡ bytes ++ v.cipher s'
    pub ends : is_empty bytes ≡ true → v.cipher s ≡ []
    pub seals : v.sealed s' ≡ v.sealed s

  -- SSL_write takes a prefix of the bytes that it is given, as long as the number that it returns.
  pub record Seals (bytes : List ℕ) (s : o.Ssl) (n : ℕ) (s' : o.Ssl) : Type 0 where
    pub within : n ≤ length bytes
    pub prefix : v.sealed s' ≡ v.sealed s ++ take n bytes

pub record SslLaws (o : OpenSsl) : Type 0 where
  pub view : View o
  pub open view use *
  pub fits : (s : o.Ssl) → length (cipher s) ≤ bio_size
  pub reads : (s : o.Ssl) → Reads o view s (o.bio_read buffer_size s).0 (o.bio_read buffer_size s).1
  pub writes :
      (bytes : List ℕ) (s : o.Ssl)
      → Seals o view bytes s (pos_part (o.ssl_write bytes s).0) (o.ssl_write bytes s).1

pub length-pos : (bytes : List ℕ) → is_empty bytes ≡ false → 0 < length bytes
length-pos bytes h = ground arith

module _ (o : OpenSsl) (v : View o) where
  Reads-end :
      (s : o.Ssl) (bytes : List ℕ) (s' : o.Ssl)
      → Reads o v s bytes s'
      → is_empty bytes ≡ true
      → v.cipher s' ≡ []
  Reads-end s [] s' r h = sym r.front ∙ r.ends refl
  Reads-end s (b ∷ bytes) s' r h = absurd (false≢true h)

  Reads-shorter :
      (s : o.Ssl) (bytes : List ℕ) (s' : o.Ssl)
      → Reads o v s bytes s'
      → is_empty bytes ≡ false
      → length (v.cipher s') < length (v.cipher s)
  Reads-shorter s bytes s' r h =
      omega (arith, ap length r.front, length-append bytes (v.cipher s'), length-pos bytes h)

module _ (e : Env) (l : SslLaws e.openssl) where
  abbrev pub cipher_of : Machine e → List ℕ
  cipher_of m = l.cipher m.stream.ssl_

  abbrev pub sealed_of : Machine e → List ℕ
  sealed_of m = l.sealed m.stream.ssl_

  -- What waited has gone down, in order, behind what went before, and nothing else has changed.
  pub record Flushed (m : Machine e) (u : Unit {0}) (m' : Machine e) : Type 0 where
    pub emptied : cipher_of m' ≡ []
    pub gone : downs m'.acts ≡ downs m.acts ++ cipher_of m
    pub seals : sealed_of m' ≡ sealed_of m

  drain_stop :
      (m : Machine e) (u : Unit {0}) (bytes : List ℕ) (s : e.Ssl)
      → Reads e.openssl l.view m.stream.ssl_ bytes s
      → is_empty bytes ≡ true
      → Flushed m u (with_ssl e s m)
  drain_stop m u bytes s r h = record {
    emptied = Reads-end e.openssl l.view m.stream.ssl_ bytes s r h;
    gone = sym (append-nil (downs m.acts)) ∙ ap (λ x. downs m.acts ++ x) (sym (r.ends h));
    seals = r.seals;
  }

  drain_round :
      (fuel : ℕ) (m m' : Machine e) (bytes : List ℕ) (u : Unit {0}) (s : e.Ssl)
      → Reads e.openssl l.view m.stream.ssl_ bytes s
      → Flushed (write_down e bytes (with_ssl e s m)) u m'
      → Flushed m u m'
  drain_round fuel m m' bytes u s r f = record {
    emptied = f.emptied;
    gone =
        f.gone
        ∙ ap (λ x. x ++ l.cipher s) (downs-append m.acts bytes)
        ∙ append_assoc (downs m.acts) bytes (l.cipher s)
        ∙ ap (λ x. downs m.acts ++ x) (sym r.front);
    seals = f.seals ∙ r.seals;
  }

  drain_loop-Flushed :
      (fuel : ℕ) (m : Machine e)
      → length (cipher_of m) < fuel
      → Ensures (Flushed m) (drain_loop e fuel m)
  unfolding drain_loop
  drain_loop-Flushed zero m h = absurd (omega arith)
  drain_loop-Flushed (suc fuel) m h =
      let (bytes, s) = e.bio_read buffer_size m.stream.ssl_ in
      let r = l.reads m.stream.ssl_ in
      let m₁ = write_down e bytes (with_ssl e s m) in
      if_cases (Ensures (Flushed m)) (is_empty bytes)
        (λ none_left. drain_stop m tt bytes s r none_left)
        (λ some_left.
          Ensures-mono (Flushed m₁) (Flushed m) (drain_loop e fuel m₁)
            (λ u m' f. drain_round fuel m m' bytes u s r f)
            (drain_loop-Flushed fuel m₁ (
              let lt = Reads-shorter e.openssl l.view m.stream.ssl_ bytes s r some_left in
              omega arith)))

  -- `drain` returns, and everything that waited has gone down in order, behind what went before;
  -- nothing waits any more and SSL_write has taken nothing.
  pub drain-Flushed : (m : Machine e) → Ensures (Flushed m) (drain e m)
  unfolding drain
  drain-Flushed m =
      drain_loop-Flushed (suc bio_size) m (let f = l.fits m.stream.ssl_ in omega arith)
