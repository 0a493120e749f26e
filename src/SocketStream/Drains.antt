-- ===== src/SocketStream/Drains.antt =====
-- The queue of a `socket_stream` runs empty, if the system goes on to make room.
use acpp_network.Prelude.{
  true, false, ℕ, zero, suc, ◌-◌, ◌≤◌, ◌<◌, ◌≡◌, refl, sym, ap, ◌∙◌, List, [], ◌∷◌, ◌++◌,
  append-nil, append_assoc, arith, ltb, ltb→ge, if_cases, Action, ok, ◌>>=◌, Ensures, Ensures-mono,
  continue-Ensures, on_part-Ensures, length, take, drop, length-drop, take-append-drop, is_empty,
}
use acpp_network.Writer.{Writer, SendsPrefix, Sent}
use acpp_network.SocketStream.{SocketStream, socket_write, erase_pending, on_sent}
use acpp_network.SocketStream.Pending.{wire}

none_of : (xs : List ℕ) → length xs ≤ 0 → xs ≡ []
none_of [] h = refl
none_of (x ∷ xs) h = absurd (omega arith)

length-empty : (xs : List ℕ) → is_empty xs ≡ true → length xs ≡ 0
length-empty [] h = refl
length-empty (x ∷ xs) h = absurd (cc)

length-some : (xs : List ℕ) → is_empty xs ≡ false → 0 < length xs
length-some [] h = absurd (cc)
length-some (x ∷ xs) h = omega arith

-- `room` is what the system does to the socket before it reports that the socket can be written: it sends nothing
-- itself, and the write that follows takes a byte at least.
pub record MakesRoom {W : Type 0} (w : Writer W) (law : SendsPrefix w) (room : W → W) : Type 0 where
  pub room_out : (s : W) → law.out (room s) ≡ law.out s
  pub room_ready : (s : W) → law.IsReady s → law.IsReady (room s)
  pub takes_some :
      (bytes : List ℕ) (s : W)
      → law.IsReady s
      → 0 < length bytes
      → Ensures
          (λ n t. Sent law.out bytes s n t × (0 < n) × law.IsReady t)
          (w.so_write bytes (room s))

module _ {W : Type 0} (w : Writer W) (law : SendsPrefix w) (room : W → W)
    (rooms : MakesRoom w law room) where
  abbrev pub event : Action (SocketStream W) (Unit {0})
  event s = on_sent w (record s { socket_ = room s.socket_ })

  -- As many events, one after another.
  abbrev pub events : ℕ → Action (SocketStream W) (Unit {0})
  events zero s = (ok tt, s)
  events (suc n) s = (event >>= λ _. events n) s

  -- The wire is what it was, and fewer bytes wait.
  record Shorter (s : SocketStream W) (u : Unit {0}) (t : SocketStream W) : Type 0 where
    ready : law.IsReady t.socket_
    same : wire w law t ≡ wire w law s
    fewer : length t.pending_data_ ≤ length s.pending_data_ - 1

  erase_pending-Shorter :
      (n : ℕ) (s t : SocketStream W)
      → t.pending_data_ ≡ s.pending_data_
      → Sent law.out s.pending_data_ s.socket_ n t.socket_ × (0 < n) × law.IsReady t.socket_
      → Ensures (Shorter s) (erase_pending w n t)
  unfolding erase_pending
  erase_pending-Shorter n s t e (h, some_sent, ready) =
      if_cases (λ u. Shorter s tt u) (ltb 0 n)
        (λ _. record {
          ready = ready;
          same = ground (
            arith,
            take-append-drop n s.pending_data_,
            append_assoc (law.out s.socket_) (take n s.pending_data_) (drop n s.pending_data_),
          );
          fewer = omega (arith, length-drop n t.pending_data_, ap length e);
        })
        (λ zero_sent. absurd (omega (arith, ltb→ge 0 n zero_sent)))

  event-Shorter : (s : SocketStream W) → law.IsReady s.socket_ → Ensures (Shorter s) (event s)
  unfolding on_sent
  event-Shorter s ready =
      if_cases (Ensures (Shorter s)) (is_empty s.pending_data_)
        (λ empty. record {
          ready = rooms.room_ready s.socket_ ready;
          same = ap (λ x. x ++ s.pending_data_) (rooms.room_out s.socket_);
          fewer = omega (arith, length-empty s.pending_data_ empty);
        })
        (λ waits.
          continue-Ensures
            (λ n t.
              (t.pending_data_ ≡ s.pending_data_)
              × (Sent law.out s.pending_data_ s.socket_ n t.socket_
                  × (0 < n)
                  × law.IsReady t.socket_))
            (Shorter s) (erase_pending w)
            (socket_write w s.pending_data_ (record s { socket_ = room s.socket_ }))
            (on_part-Ensures
              (λ n t. Sent law.out s.pending_data_ s.socket_ n t × (0 < n) × law.IsReady t) _ _
              (w.so_write s.pending_data_ (room s.socket_))
              (rooms.takes_some s.pending_data_ s.socket_ ready (length-some s.pending_data_ waits))
              (λ n t h. (refl, h)))
            (λ n t h. erase_pending-Shorter n s t h.0 h.1))

  -- On a socket that is ready, and for which the system makes room before each event, as many events as bytes wait
  -- empty the queue: each flush returns, and all that waited has been sent, in order.
  pub events-drain :
      (n : ℕ) (s : SocketStream W)
      → law.IsReady s.socket_
      → length s.pending_data_ ≤ n
      → Ensures
          (λ _ t.
            (t.pending_data_ ≡ []) × (law.out t.socket_ ≡ law.out s.socket_ ++ s.pending_data_))
          (events n s)
  events-drain zero s ready few =
      let none = none_of s.pending_data_ few in
      (none, sym (append-nil (law.out s.socket_)) ∙ ap (λ x. law.out s.socket_ ++ x) (sym none))
  events-drain (suc n) s ready few =
      continue-Ensures (Shorter s) _ (λ _. events n) (event s) (event-Shorter s ready)
        (λ u t h.
          Ensures-mono
            (λ _ v.
              (v.pending_data_ ≡ []) × (law.out v.socket_ ≡ law.out t.socket_ ++ t.pending_data_))
            _ (events n t) (λ _ v g. (g.0, g.1 ∙ h.same))
            (events-drain n t h.ready (let f = h.fewer in omega arith)))
