-- ===== src/Ssl/Channel.antt =====
-- Two layers of include/acpp-network/ssl/ssl.inl, one at each end of a connection: what one is given to write comes out
-- above the other.
use acpp_network.Prelude.{
  ℕ, ◌≤◌, ◌≡◌, refl, sym, ap, ◌∙◌, List, [], ◌∷◌, ◌++◌, ok, throw, out_of_fuel, Result, Action,
  ◌>>=◌, on_part, Ensures, Ensures-mono, Ensures-and, continue-Ensures, on_part-Ensures, take, drop,
  length, drop-append, append-nil, append_assoc,
}
use acpp_network.Ssl.{Env, Machine, connected}
use acpp_network.Ssl.Operations.{write, on_received}
use acpp_network.Ssl.Operations.Flush.{SslLaws, downs}
use acpp_network.Ssl.Operations.Outgoing.{Ended, Written, write-Written}
use acpp_network.Ssl.Operations.Input.{ups, ReceiveLaws, LeavesAlone, ReadsEnough}
use acpp_network.Ssl.Operations.Opened.{IsOpen, Received, on_received-Received}
use acpp_network.Ssl.Operations.Produced.{SendLaws, IsLinked, Goes, write-Goes}

abbrev pub concat : List (List ℕ) → List ℕ
concat [] = []
concat (c ∷ cs) = c ++ concat cs

-- The connection below hands on, in order, what goes down at one end; `cut` is the pieces in which it arrives.
pub record Network : Type 0 where
  pub cut : List ℕ → List (List ℕ)
  pub whole : (bytes : List ℕ) → concat (cut bytes) ≡ bytes

-- The pieces come one after another.
pub receive_all : (e : Env) → List (List ℕ) → Action (Machine e) (Unit {0})
receive_all e [] m = (ok tt, m)
receive_all e (c ∷ cs) m = (on_received e c >>= λ _. receive_all e cs) m

-- What went down in a write, at the other end.
arrive :
    (s r : Env)
    → Network
    → Machine s
    → Machine r
    → Result ℕ × Machine s
    → Result ℕ × (Machine s × Machine r)
arrive s r net m t (ok n, m') =
    on_part
      ((receive_all r (net.cut (drop (length (downs m.acts)) (downs m'.acts))) >>= λ _ t'.
          (ok n, t'))
        t)
      (λ t'. (m', t'))
arrive s r net m t (throw x, m') = (throw x, (m', t))
arrive s r net m t (out_of_fuel, m') = (out_of_fuel, (m', t))

-- A write at the end `s`, with the result of the call of `write`.
pub write_across : (s r : Env) → Network → List ℕ → Action (Machine s × Machine r) ℕ
write_across s r net bytes (m, t) = arrive s r net m t (write s bytes m)

-- What is relied on at the two ends, which are of one session: they agree on what a ciphertext carries.
pub record ChannelLaws (s r : Env) : Type 1 where
  pub s_out : SslLaws s.openssl
  pub r_out : SslLaws r.openssl
  pub sends : SendLaws s.openssl s_out
  pub receives : ReceiveLaws r.openssl
  pub agree : (bytes : List ℕ) → receives.decode bytes ≡ sends.decode bytes
  pub alone : LeavesAlone r
  pub enough : ReadsEnough r receives

module _ (s r : Env) (law : ChannelLaws s r) where
  -- Both ends are connected, and all that left the one has come to the other.
  pub record IsSynced (m : Machine s) (t : Machine r) : Type 0 where
    pub status : m.stream.status_ ≡ connected
    pub linked : IsLinked s law.s_out law.sends m
    pub flushed : law.s_out.cipher m.stream.ssl_ ≡ []
    pub receiver : IsOpen r law.receives law.alone t
    pub wire : law.receives.fed t.stream.ssl_ ≡ downs m.acts

  -- What was given above at the one end is what SSL_write has taken at the other.
  pub synced_above :
      (m : Machine s) (t : Machine r) → IsSynced m t → ups t.acts ≡ law.s_out.sealed m.stream.ssl_
  synced_above m t v =
      v.receiver.given
      ∙ ap (λ x. law.receives.decode x) v.wire
      ∙ law.agree (downs m.acts)
      ∙ ap (λ x. law.sends.decode x)
          (sym (v.linked ∙ ap (λ x. downs m.acts ++ x) v.flushed ∙ append-nil (downs m.acts)))
      ∙ law.sends.decodes m.stream.ssl_

  abbrev Arrived : List ℕ → Machine r → Unit {0} → Machine r → Type 0
  Arrived = Received r law.receives law.alone

  receive_all-Received :
      (cs : List (List ℕ)) (t : Machine r)
      → IsOpen r law.receives law.alone t
      → Ensures (Arrived (concat cs) t) (receive_all r cs t)
  unfolding receive_all
  receive_all-Received [] t v = (v, sym (append-nil _))
  receive_all-Received (c ∷ cs) t v =
      continue-Ensures (Arrived c t) (Arrived (c ++ concat cs) t) (λ _. receive_all r cs)
        (on_received r c t)
        (on_received-Received r law.receives law.alone law.r_out law.enough c t v)
        (λ _ t₁ h.
          Ensures-mono (Arrived (concat cs) t₁) (Arrived (c ++ concat cs) t) (receive_all r cs t₁)
            (λ _ t₂ g. (g.0, g.1 ∙ ap (λ x. x ++ concat cs) h.1 ∙ append_assoc _ c (concat cs)))
            (receive_all-Received cs t₁ h.0))

  -- A write has come across: the ends are in step again, and the first `count` bytes have come out behind what
  -- came before; they are all unless the call of SSL_write
  -- that follows the rounds of this write took nothing.
  pub record Across (bytes : List ℕ) (x : Machine s × Machine r) (n : ℕ) (y : Machine s × Machine r)
      : Type 0 where
    pub synced : IsSynced y.0 y.1
    pub result : n ≡ length bytes
    pub count : ℕ
    pub within : count ≤ length bytes
    pub above : ups y.1.acts ≡ ups x.1.acts ++ take count bytes
    pub ended : Ended s law.s_out bytes 0 x.0 count

  -- What arrives is what went down.
  arrive-Across :
      (net : Network) (bytes : List ℕ) (m : Machine s) (t : Machine r) (w : Result ℕ × Machine s)
      → IsSynced m t
      → Ensures (λ n m'. Written s law.s_out bytes m n m' × Goes s law.s_out law.sends m m') w
      → Ensures (Across bytes (m, t)) (arrive s r net m t w)
  unfolding arrive
  arrive-Across net bytes m t (throw x, m') v h = absurd h
  arrive-Across net bytes m t (out_of_fuel, m') v h = absurd h
  arrive-Across net bytes m t (ok n, m') v (a, g) =
      let new = drop (length (downs m.acts)) (downs m'.acts) in
      let arrives : concat (net.cut new) ≡ g.new =
        net.whole new
        ∙ ap (λ x. drop (length (downs m.acts)) x) g.grows
        ∙ drop-append (length (downs m.acts)) (downs m.acts) g.new refl in
      on_part-Ensures (λ k t'. (k ≡ n) × Arrived (concat (net.cut new)) t tt t')
        (Across bytes (m, t)) (λ t'. (m', t'))
        ((receive_all r (net.cut new) >>= λ _ t'. (ok n, t')) t)
        (continue-Ensures (Arrived (concat (net.cut new)) t)
          (λ k t'. (k ≡ n) × Arrived (concat (net.cut new)) t tt t') (λ _ t'. (ok n, t'))
          (receive_all r (net.cut new) t) (receive_all-Received (net.cut new) t v.receiver)
          (λ _ t' h. (refl, h)))
        (λ k t' h.
          let synced : IsSynced m' t' = record {
            status = g.status ∙ v.status;
            linked = g.linked;
            flushed = a.flushed;
            receiver = h.1.0;
            wire =
                h.1.1
                ∙ ap (λ x. law.receives.fed t.stream.ssl_ ++ x) arrives
                ∙ ap (λ x. x ++ g.new) v.wire
                ∙ sym g.grows;
          } in
          record {
            synced = synced;
            result = h.0 ∙ a.result;
            count = a.n;
            within = a.within;
            above =
                synced_above m' t' synced
                ∙ a.seals
                ∙ ap (λ x. x ++ take a.n bytes) (sym (synced_above m t v));
            ended = a.ended;
          })

  -- In an established session of two layers in step, over a connection that keeps the order of the bytes and cuts
  -- them as it likes, where what the receiving end calls above leaves that end alone: a write at the one end and
  -- the calls of `on_received` at the other return; what came out above the other end is followed by a prefix of
  -- the bytes, in order, which is all of them unless, after the rounds of `write` that took this prefix, its next
  -- call of SSL_write takes nothing; and the layers are in step again.
  pub write_across-Across :
      (net : Network) (bytes : List ℕ) (m : Machine s) (t : Machine r)
      → IsSynced m t
      → Ensures (Across bytes (m, t)) (write_across s r net bytes (m, t))
  unfolding write_across
  write_across-Across net bytes m t v = arrive-Across net bytes m t (write s bytes m) v (
      Ensures-and (Written s law.s_out bytes m) (Goes s law.s_out law.sends m) (write s bytes m)
        (write-Written s law.s_out bytes m v.status)
        (write-Goes s law.s_out law.sends bytes m v.linked))
