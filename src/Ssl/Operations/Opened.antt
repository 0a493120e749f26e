-- ===== src/Ssl/Operations/Opened.antt =====
-- What a connected layer has given to the layer above after a call of `on_received`.
use acpp_network.Prelude.{
  ℕ, suc, ◌≡◌, refl, sym, ap, ◌∙◌, subst, List, [], ◌++◌, Ensures, continue-Ensures, Ensures-mono,
  if_cases, arith, length, append-nil, pos, ◌==◌,
}
use acpp_network.Ssl.{Env, Machine, connected, drain, ssl_received_shutdown}
use acpp_network.Ssl.Operations.{feed_loop, answer_shutdown, on_received_at, on_received}
use acpp_network.Ssl.Operations.Flush.{SslLaws}
use acpp_network.Ssl.Operations.Input.{ups, ReceiveLaws, LeavesAlone, ReadsEnough}
use acpp_network.Ssl.Operations.Incoming.{
  Moved, Moved-trans, IsSettled, Same, drain-Same, Fed, feed_loop-Fed,
}

module _ (e : Env) (law : ReceiveLaws e.openssl) (alone : LeavesAlone e) where
  -- A connected layer that has given all that the records in its input carry.
  pub record IsOpen (m : Machine e) : Type 0 where
    pub status : m.stream.status_ ≡ connected
    pub settled : IsSettled e law alone m
    pub given : ups m.acts ≡ law.decode (law.fed m.stream.ssl_)

  -- It is open again, and the bytes are behind its input.
  abbrev pub Received : List ℕ → Machine e → Unit {0} → Machine e → Type 0
  Received bytes m u m' = IsOpen m' × (law.fed m'.stream.ssl_ ≡ law.fed m.stream.ssl_ ++ bytes)

  -- No close_notify has come.
  answer_shutdown-none : (m : Machine e) → answer_shutdown e m ≡ m
  unfolding answer_shutdown
  answer_shutdown-none m =
      if_cases (λ x. x ≡ m) (e.ssl_get_shutdown m.stream.ssl_ == ssl_received_shutdown)
        (λ yes_closed. let stay = law.stays m.stream.ssl_ in absurd (cc)) (λ _. refl)

  -- What SSL_read has given is all that can be decoded.
  opened-decode :
      (m : Machine e)
      → law.ready m.stream.ssl_ ≡ []
      → law.decode (law.fed m.stream.ssl_) ≡ law.opened m.stream.ssl_
  opened-decode m h =
      law.decodes m.stream.ssl_
      ∙ ap (λ x. law.opened m.stream.ssl_ ++ x) h
      ∙ append-nil (law.opened m.stream.ssl_)

  Moved-Received :
      (bytes : List ℕ) (m m' : Machine e)
      → IsOpen m
      → Moved e law alone bytes m m'
      → IsSettled e law alone m'
      → Received bytes m tt m'
  Moved-Received bytes m m' v g s = (
    record {
      status = g.status ∙ v.status;
      settled = s;
      given =
          g.told
          ∙ ap (λ x. x ++ g.given) (v.given ∙ opened-decode m v.settled.none_ready)
          ∙ sym g.opened
          ∙ sym (opened-decode m' s.none_ready);
    },
    g.fed,
  )

  module _ (out : SslLaws e.openssl) (enough : ReadsEnough e law) where
    after_loop :
        (bytes : List ℕ) (m m' : Machine e)
        → IsOpen m
        → Fed e law alone bytes m tt m'
        → Ensures (Received bytes m) (drain e (answer_shutdown e m'))
    after_loop bytes m m' v f =
        subst (λ x. Ensures (Received bytes m) (drain e x)) (sym (answer_shutdown-none m'))
          (Ensures-mono (λ _ t. Same e law alone m' t) (Received bytes m) (drain e m')
            (λ _ t k.
              Moved-Received bytes m t v
                (subst (λ c. Moved e law alone c m t) (append-nil bytes)
                  (Moved-trans e law alone bytes [] m m' t f.0 k.moved))
                (record { none_ready = k.ready ∙ f.1.none_ready; idle = k.idle f.1.idle }))
            (drain-Same e law alone out m'))

    -- In an established session that the peer does not shut down, on a connected layer that has given all that the
    -- records in its input carry, with a layer above that leaves the stream alone in its calls: `on_received`
    -- returns, the bytes are behind the input of OpenSSL, and the layer is connected and again has given, in order,
    -- exactly the plain bytes that the records in its whole input carry.
    pub on_received-Received :
        (bytes : List ℕ) (m : Machine e)
        → IsOpen m
        → Ensures (Received bytes m) (on_received e bytes m)
    unfolding on_received on_received_at
    on_received-Received bytes m v =
        subst (λ s. Ensures (Received bytes m) (on_received_at e s bytes m)) (sym v.status)
          (continue-Ensures (Fed e law alone bytes m) (Received bytes m)
            (λ _ m'. drain e (answer_shutdown e m'))
            (feed_loop e (suc (length bytes)) bytes (pos 0) m)
            (feed_loop-Fed e law alone out enough (suc (length bytes)) bytes 0 m (omega arith)
              (omega arith) v.settled)
            (λ u m' f. after_loop bytes m m' v f))
