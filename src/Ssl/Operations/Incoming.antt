-- ===== src/Ssl/Operations/Incoming.antt =====
-- The incoming direction of the encrypting layer: `on_received` of a connected layer, whose loop hands the bytes to
-- the BIO pair and what SSL_read opens to the layer above.
use acpp_network.Prelude.{
  ℕ, zero, suc, ◌+◌, ◌-◌, ◌≤◌, ◌<◌, ◌≡◌, refl, sym, ap, ◌∙◌, subst, true, List, [], ◌∷◌, ◌++◌,
  Ensures, continue-Ensures, Ensures-mono, Ensures-and, if_cases, arith, ltb, ltb→lt, ltb→ge,
  length, length-append, length-drop, take, drop, drop-add, take-append-drop, append_assoc,
  append-nil, is_empty, ℤ, pos, ◌+ℤ◌, ◌>>=◌, Result,
}
use acpp_network.Ssl.{
  Env, Machine, up_received, with_ssl, write_down, call_up, drain, drain_loop, deliver,
  deliver_loop, bio_size, buffer_size,
}
use acpp_network.Ssl.Operations.{feed_loop}
use acpp_network.Ssl.Operations.Flush.{SslLaws, Flushed, drain-Flushed, length-pos}
use acpp_network.Ssl.Operations.Input.{
  ups, ups-append, ups-down, Feeds, Opens, ReceiveLaws, LeavesAlone, ReadsEnough,
}

module _ (e : Env) (law : ReceiveLaws e.openssl) (alone : LeavesAlone e) where
  -- From `m` to `m'`: the ciphertext `c` was fed, and the layer above was given what SSL_read gave.
  pub record Moved (c : List ℕ) (m m' : Machine e) : Type 0 where
    pub given : List ℕ
    pub status : m'.stream.status_ ≡ m.stream.status_
    pub fed : law.fed m'.stream.ssl_ ≡ law.fed m.stream.ssl_ ++ c
    pub opened : law.opened m'.stream.ssl_ ≡ law.opened m.stream.ssl_ ++ given
    pub told : ups m'.acts ≡ ups m.acts ++ given

  -- All that can be given has been given.
  pub record IsSettled (m : Machine e) : Type 0 where
    pub none_ready : law.ready m.stream.ssl_ ≡ []
    pub idle : law.IsIdle m.stream.ssl_

  Moved-none : (m : Machine e) → Moved [] m m
  Moved-none m = record {
    given = [];
    status = refl;
    fed = sym (append-nil _);
    opened = sym (append-nil _);
    told = sym (append-nil _);
  }

  pub Moved-trans :
      (c c' : List ℕ) (m m₁ m₂ : Machine e) → Moved c m m₁ → Moved c' m₁ m₂ → Moved (c ++ c') m m₂
  Moved-trans c c' m m₁ m₂ v w = record {
    given = v.given ++ w.given;
    status = w.status ∙ v.status;
    fed = w.fed ∙ ap (λ x. x ++ c') v.fed ∙ append_assoc _ c c';
    opened = w.opened ∙ ap (λ x. x ++ w.given) v.opened ∙ append_assoc _ v.given w.given;
    told = w.told ∙ ap (λ x. x ++ w.given) v.told ∙ append_assoc _ v.given w.given;
  }

  -- A round of SSL_read that gives some bytes.
  call_up-Moved :
      (m : Machine e) (bytes : List ℕ) (s : e.Ssl)
      → Opens e.openssl law.inside m.stream.ssl_ bytes s
      → Moved [] m (call_up e (up_received bytes) (with_ssl e s m))
        × (law.ready (call_up e (up_received bytes) (with_ssl e s m)).stream.ssl_ ≡ law.ready s)
  unfolding call_up
  call_up-Moved m bytes s r =
      let t = (with_ssl e s m).stream in
      let same = alone (up_received bytes) t in
      (
        record {
          given = bytes;
          status = ap (λ x. x.0.status_) same;
          fed = ap (λ x. law.fed x.0.ssl_) same ∙ r.same ∙ sym (append-nil _);
          opened = ap (λ x. law.opened x.0.ssl_) same ∙ r.opens;
          told = ap (λ x. ups (m.acts ++ up_received bytes ∷ x.1)) same ∙ ups-append m.acts bytes;
        },
        ap (λ x. law.ready x.0.ssl_) same,
      )

  abbrev Delivered : Machine e → Unit {0} → Machine e → Type 0
  Delivered m u m' = Moved [] m m' × IsSettled m'

  deliver_stop :
      (m : Machine e) (bytes : List ℕ) (s : e.Ssl)
      → Opens e.openssl law.inside m.stream.ssl_ bytes s
      → is_empty bytes ≡ true
      → Delivered m tt (with_ssl e s m)
  deliver_stop m [] s r h = (
    record {
      given = [];
      status = refl;
      fed = r.same ∙ sym (append-nil _);
      opened = r.opens;
      told = sym (append-nil _);
    },
    record { none_ready = sym r.front ∙ (r.ends h).0; idle = (r.ends h).1 },
  )
  deliver_stop m (b ∷ bytes) s r h = absurd (cc)

  deliver_loop-Delivered :
      (fuel : ℕ) (m : Machine e)
      → length (law.ready m.stream.ssl_) < fuel
      → Ensures (Delivered m) (deliver_loop e fuel m)
  unfolding deliver_loop
  deliver_loop-Delivered zero m h = absurd (omega arith)
  deliver_loop-Delivered (suc fuel) m h =
      let (bytes, s) = e.ssl_read buffer_size m.stream.ssl_ in
      let r = law.opens m.stream.ssl_ in
      let m₁ = call_up e (up_received bytes) (with_ssl e s m) in
      let v = call_up-Moved m bytes s r in
      if_cases (Ensures (Delivered m)) (is_empty bytes)
        (λ none_left. deliver_stop m bytes s r none_left)
        (λ some_left.
          Ensures-mono (Delivered m₁) (Delivered m) (deliver_loop e fuel m₁)
            (λ u m' d. (Moved-trans [] [] m m₁ m' v.0 d.0, d.1))
            (deliver_loop-Delivered fuel m₁ (
              omega (
                arith,
                ap length v.1,
                ap length r.front,
                length-append bytes (law.ready s),
                length-pos bytes some_left,
              ))))

  deliver-Delivered : ReadsEnough e law → (m : Machine e) → Ensures (Delivered m) (deliver e m)
  unfolding deliver
  deliver-Delivered enough m = deliver_loop-Delivered e.read_fuel m (enough m.stream.ssl_)

  -- A drain leaves the input as it is.
  pub record Same (m m' : Machine e) : Type 0 where
    pub moved : Moved [] m m'
    pub ready : law.ready m'.stream.ssl_ ≡ law.ready m.stream.ssl_
    pub idle : law.IsIdle m.stream.ssl_ → law.IsIdle m'.stream.ssl_

  drain_loop-Same : (fuel : ℕ) (m : Machine e) → Same m (drain_loop e fuel m).1
  unfolding drain_loop
  drain_loop-Same zero m = record { moved = Moved-none m; ready = refl; idle = λ h. h }
  drain_loop-Same (suc fuel) m =
      let (bytes, s) = e.bio_read buffer_size m.stream.ssl_ in
      let a = law.apart m.stream.ssl_ in
      let m₁ = with_ssl e s m in
      let step : Moved [] m m₁ = record {
        given = [];
        status = refl;
        fed = a.fed ∙ sym (append-nil _);
        opened = a.opened ∙ sym (append-nil _);
        told = sym (append-nil _);
      } in
      let sent : Moved [] m₁ (write_down e bytes m₁) = record {
        given = [];
        status = refl;
        fed = sym (append-nil _);
        opened = sym (append-nil _);
        told = ups-down m.acts bytes ∙ sym (append-nil _);
      } in
      let rest = drain_loop-Same fuel (write_down e bytes m₁) in
      if_cases (λ (x : Result (Unit {0}) × Machine e). Same m x.1) (is_empty bytes)
        (λ _. record { moved = step; ready = a.ready; idle = a.idle })
        (λ _. record {
          moved =
              Moved-trans [] [] m m₁ _ step
                (Moved-trans [] [] m₁ (write_down e bytes m₁) _ sent rest.moved);
          ready = rest.ready ∙ a.ready;
          idle = λ h. rest.idle (a.idle h);
        })

  -- It returns, by what is documented of the output.
  pub drain-Same : SslLaws e.openssl → (m : Machine e) → Ensures (λ _ m'. Same m m') (drain e m)
  unfolding drain
  drain-Same out m =
      Ensures-mono (λ u m'. Flushed e out m u m' × Same m m') (λ _ m'. Same m m') (drain e m)
        (λ _ _ h. h.1)
        (Ensures-and (Flushed e out m) (Same m) (drain e m) (drain-Flushed e out m)
          (drain_loop-Same (suc bio_size) m))

  pos-add : (a b : ℕ) → pos a +ℤ pos b ≡ pos (a + b)
  pos-add a b = ground arith

  drop-all : (t : ℕ) (bytes : List ℕ) → length bytes ≤ t → drop t bytes ≡ []
  drop-all zero [] h = refl
  drop-all zero (b ∷ bytes) h = absurd (omega arith)
  drop-all (suc t) [] h = refl
  drop-all (suc t) (b ∷ bytes) h = drop-all t bytes (omega arith)

  -- One BIO_write.
  feed-Moved :
      (bytes : List ℕ) (m : Machine e) (r : ℤ) (s : e.Ssl)
      (f : Feeds e.openssl law.inside bytes m.stream.ssl_ r s)
      → Moved (take f.n bytes) m (with_ssl e s m)
  feed-Moved bytes m r s f = record {
    given = [];
    status = refl;
    fed = f.feeds;
    opened = f.same ∙ sym (append-nil _);
    told = sym (append-nil _);
  }

  abbrev pub Fed : List ℕ → Machine e → Unit {0} → Machine e → Type 0
  Fed c m u m' = Moved c m m' × IsSettled m'

  -- The bytes of one round and those of the others.
  rounds_join :
      (bytes : List ℕ) (t n : ℕ) → take n (drop t bytes) ++ drop (t + n) bytes ≡ drop t bytes
  rounds_join bytes t n =
      ap (λ x. take n (drop t bytes) ++ x) (drop-add t n bytes) ∙ take-append-drop n (drop t bytes)

  Fed-round :
      (bytes : List ℕ) (t n : ℕ) (m m₁ m₂ m₃ m₄ : Machine e)
      → Moved (take n (drop t bytes)) m m₁
      → Moved [] m₁ m₂
      → Moved [] m₂ m₃
      → Moved (drop (t + n) bytes) m₃ m₄
      → Moved (drop t bytes) m m₄
  Fed-round bytes t n m m₁ m₂ m₃ m₄ a b c d =
      subst (λ x. Moved x m m₄) (rounds_join bytes t n)
        (Moved-trans (take n (drop t bytes)) _ m m₁ m₄ a
          (Moved-trans [] _ m₁ m₂ m₄ b (Moved-trans [] _ m₂ m₃ m₄ c d)))

  module _ (out : SslLaws e.openssl) (enough : ReadsEnough e law) where
    -- A round, and then the others.
    feed_round :
        (fuel : ℕ) (bytes : List ℕ) (t : ℕ) (m : Machine e)
        → t < length bytes
        → length bytes - t < suc fuel
        → IsSettled m
        → ((t' : ℕ) (m' : Machine e)
            → t' ≤ length bytes
            → length bytes - t' < fuel
            → IsSettled m'
            → Ensures (Fed (drop t' bytes) m') (feed_loop e fuel bytes (pos t') m'))
        → let (r, s) = e.bio_write (drop t bytes) m.stream.ssl_ in
          Ensures (Fed (drop t bytes) m) (
            (deliver e >>= λ _. drain e >>= λ _. feed_loop e fuel bytes (pos t +ℤ r))
              (with_ssl e s m))
    feed_round fuel bytes t m more few settled rest =
        let (r, s) = e.bio_write (drop t bytes) m.stream.ssl_ in
        let f =
          law.feeds (drop t bytes) m.stream.ssl_ (omega (arith, length-drop t bytes))
            settled.idle in
        let m₁ = with_ssl e s m in
        let total : pos t +ℤ r ≡ pos (t + f.n) = ap (λ x. pos t +ℤ x) f.counted ∙ pos-add t f.n in
        continue-Ensures (Delivered m₁) (Fed (drop t bytes) m) _ (deliver e m₁)
          (deliver-Delivered enough m₁)
          (λ u m₂ d.
            continue-Ensures (λ _ m₃. Same m₂ m₃) (Fed (drop t bytes) m) _ (drain e m₂)
              (drain-Same out m₂)
              (λ u' m₃ k.
                subst (λ x. Ensures (Fed (drop t bytes) m) (feed_loop e fuel bytes x m₃))
                  (sym total)
                  (Ensures-mono (Fed (drop (t + f.n) bytes) m₃) (Fed (drop t bytes) m)
                    (feed_loop e fuel bytes (pos (t + f.n)) m₃)
                    (λ _ m₄ g. (
                      Fed-round bytes t f.n m m₁ m₂ m₃ m₄ (feed-Moved (drop t bytes) m r s f) d.0
                          k.moved g.0,
                      g.1,
                    ))
                    (rest (t + f.n) m₃ (let w = f.within in omega (arith, length-drop t bytes))
                      (let p = f.some_fed in omega arith)
                      (record { none_ready = k.ready ∙ d.1.none_ready; idle = k.idle d.1.idle })))))

    pub feed_loop-Fed :
        (fuel : ℕ) (bytes : List ℕ) (t : ℕ) (m : Machine e)
        → t ≤ length bytes
        → length bytes - t < fuel
        → IsSettled m
        → Ensures (Fed (drop t bytes) m) (feed_loop e fuel bytes (pos t) m)
    unfolding feed_loop
    feed_loop-Fed zero bytes t m h few settled = absurd (omega arith)
    feed_loop-Fed (suc fuel) bytes t m h few settled =
        if_cases (Ensures (Fed (drop t bytes) m)) (ltb t (length bytes))
          (λ more.
            feed_round fuel bytes t m (ltb→lt t (length bytes) more) few settled
              (feed_loop-Fed fuel bytes))
          (λ done. (
            subst (λ x. Moved x m m) (sym (drop-all t bytes (ltb→ge t (length bytes) done)))
                (Moved-none m),
            settled,
          ))
