-- ===== src/Ssl/Operations/Lifecycle.antt =====
-- The life cycle of the encrypting layer: the status after each operation, as the answers of OpenSSL decide it,
-- where the layer above leaves the status alone in its calls.
use acpp_network.Prelude.{
  ℕ, zero, suc, ◌≡◌, ◌≢◌, refl, sym, ap, ◌∙◌, subst, Bool, true, false, List, [], Result, ok, throw,
  out_of_fuel, continue, if_cases, ◌==◌, length, ℤ, pos, negsuc, pos_part, neg_part, arith,
}
use acpp_network.Ssl.{
  Env, Machine, Stream, Act, Side, client, server, Status, closed, connecting, connected,
  peer_closing, closing, up_connected, up_disconnected, is_connected, is_closed, with_status, drain,
  feed, shake, shaken, handshake, after_handshake, do_connect_at, do_connect, ssl_received_shutdown,
}
use acpp_network.Ssl.Operations.{
  on_connected_at, on_connected, shut, shutdown, after_shutdown, do_shutdown_at, do_shutdown,
  disconnect_at, disconnect, write_loop, write_at, write, feed_loop, answer_shutdown,
  on_received_at, on_received,
}
use acpp_network.Ssl.Operations.Loops.{
  Relation, continue-Moved, drain-Moved, feed-status, tell-Moved, write_loop-Moved, feed_loop-Moved,
}

-- The statuses in which a handshake goes on.
abbrev pub Opening : Status → Type 0
Opening closed = Unit {0}
Opening connecting = Unit {0}
Opening connected = ⊥
Opening peer_closing = ⊥
Opening closing = ⊥

-- What a handshake call that answered `asked` makes of the status; in other statuses there is no call.
pub data Opens (asked : ℤ) (s : Status) : Status → Type 0 where
  established : Opening s → asked ≡ pos 1 → Opens asked s connected
  refused : Opening s → asked ≡ pos 0 → Opens asked s closed
  waits : Opening s → asked ≢ pos 1 → asked ≢ pos 0 → Opens asked s connecting
  passes : ¬ (Opening s) → Opens asked s s

-- What a call of SSL_shutdown that answered `answer` makes of the status `closing`.
pub data Closes (answer : ℤ) : Status → Type 0 where
  finished : answer ≡ pos 1 → Closes answer closed
  lingers : answer ≢ pos 1 → Closes answer closing

-- `disconnect` calls SSL_shutdown in the status `connected` only.
pub data Leaves (answer : ℤ) (s : Status) : Status → Type 0 where
  leaves : {t : Status} → s ≡ connected → Closes answer t → Leaves answer s t
  stays : s ≢ connected → Leaves answer s s

-- What bytes that come in make of the status; `told` is whether all were taken and the peer has closed.
pub data Receives (asked answer : ℤ) (told : Bool) : Status → Status → Type 0 where
  opens : {s t : Status} → Opening s → Opens asked s t → Receives asked answer told s t
  shuts : {t : Status} → Closes answer t → Receives asked answer told closing t
  answers : told ≡ true → Receives asked answer told connected peer_closing
  goes_on : told ≡ false → Receives asked answer told connected connected
  ignores : Receives asked answer told peer_closing peer_closing

-- The layer above leaves the status alone in a call: it does not disconnect from within it.
abbrev pub IsStill : Env → Type 0
IsStill e = (a : Act) (t : Stream e.openssl) → (e.app a t).0.status_ ≡ t.status_

abbrev staying : {e : Env} → IsStill e → Relation e
staying still = record {
  R = λ s t. s ≡ t;
  same = λ _. refl;
  trans = λ _ _ _ f g. f ∙ g;
  keeps = λ a t. sym (still a t);
}

-- The loop took all the bytes, and OpenSSL has the close of the peer and no other.
pub peer_told : (e : Env) → Result (Unit {0}) × Machine e → Bool
peer_told e (ok u, m) = e.ssl_get_shutdown m.stream.ssl_ == ssl_received_shutdown
peer_told e (throw x, m) = false
peer_told e (out_of_fuel, m) = false

module _ (e : Env) where
  -- The answer of SSL_accept or SSL_connect, and that of SSL_shutdown.
  abbrev pub asks : Machine e → ℤ
  asks m = (shake e m.stream.side_ m.stream).0

  abbrev pub shuts_down : Machine e → ℤ
  shuts_down m = (e.ssl_shutdown m.stream.ssl_).0

  -- A client asks for a handshake when the connection below is there, a server waits for bytes.
  abbrev pub Begins : Side → Machine e → Status → Type 0
  Begins client m t = Opens (asks m) m.stream.status_ t
  Begins server m t = t ≡ m.stream.status_

module _ (e : Env) (still : IsStill e) where
  shaken-Opens : (s : Status) (r : ℤ) → Opening s → Opens r s (shaken e r)
  unfolding shaken
  shaken-Opens s (pos zero) o = refused o refl
  shaken-Opens s (pos (suc zero)) o = established o refl
  shaken-Opens s (pos (suc (suc n))) o =
      waits o (λ h. let k = ap pos_part h in omega arith)
        (λ h. let k = ap pos_part h in omega arith)
  shaken-Opens s (negsuc n) o =
      waits o (λ h. let k = ap pos_part h in omega arith)
        (λ h. let k = ap neg_part h in omega arith)

  shut-Closes : (r : ℤ) → Closes r (shut e r)
  unfolding shut
  shut-Closes (pos zero) = lingers (λ h. let k = ap pos_part h in omega arith)
  shut-Closes (pos (suc zero)) = finished refl
  shut-Closes (pos (suc (suc n))) = lingers (λ h. let k = ap pos_part h in omega arith)
  shut-Closes (negsuc n) = lingers (λ h. let k = ap pos_part h in omega arith)

  after_handshake-status :
      (m : Machine e) → m.stream.status_ ≡ (after_handshake e m).1.stream.status_
  unfolding after_handshake
  after_handshake-status m =
      continue-Moved e (staying still) m (drain e m) _ (drain-Moved e (staying still) m)
        (λ _ m'. tell-Moved e (staying still) (is_connected m'.stream.status_) up_connected m')

  after_shutdown-status : (m : Machine e) → m.stream.status_ ≡ (after_shutdown e m).1.stream.status_
  unfolding after_shutdown
  after_shutdown-status m =
      continue-Moved e (staying still) m (drain e m) _ (drain-Moved e (staying still) m)
        (λ _ m'. tell-Moved e (staying still) (is_closed m'.stream.status_) up_disconnected m')

  handshake-Opens :
      (s : Status) (m : Machine e)
      → Opening s
      → Opens (asks e m) s (after_handshake e (handshake e m)).1.stream.status_
  unfolding handshake
  handshake-Opens s m o =
      subst (Opens (asks e m) s) (after_handshake-status (handshake e m))
        (shaken-Opens s (asks e m) o)

  shutdown-Closes :
      (m : Machine e) → Closes (shuts_down e m) (after_shutdown e (shutdown e m)).1.stream.status_
  unfolding shutdown
  shutdown-Closes m =
      subst (Closes (shuts_down e m)) (after_shutdown-status (shutdown e m))
        (shut-Closes (shuts_down e m))

  do_connect_at-Opens :
      (s : Status) (m : Machine e)
      → m.stream.status_ ≡ s
      → Opens (asks e m) s (do_connect_at e s m).1.stream.status_
  unfolding do_connect_at
  do_connect_at-Opens closed m h = handshake-Opens closed m tt
  do_connect_at-Opens connecting m h = handshake-Opens connecting m tt
  do_connect_at-Opens connected m h = subst (Opens (asks e m) connected) (sym h) (passes (λ x. x))
  do_connect_at-Opens peer_closing m h =
      subst (Opens (asks e m) peer_closing) (sym h) (passes (λ x. x))
  do_connect_at-Opens closing m h = subst (Opens (asks e m) closing) (sym h) (passes (λ x. x))

  fed-status : (bytes : List ℕ) (m : Machine e) → (feed e bytes m).stream.status_ ≡ m.stream.status_
  fed-status bytes m = feed-status e (staying still) bytes m

  do_connect-Opens :
      (bytes : List ℕ) (m : Machine e)
      → Opens (asks e (feed e bytes m)) m.stream.status_ (do_connect e bytes m).1.stream.status_
  unfolding do_connect
  do_connect-Opens bytes m =
      do_connect_at-Opens m.stream.status_ (feed e bytes m) (fed-status bytes m)

  do_shutdown-Closes :
      (bytes : List ℕ) (m : Machine e)
      → m.stream.status_ ≡ closing
      → Closes (shuts_down e (feed e bytes m)) (do_shutdown e bytes m).1.stream.status_
  unfolding do_shutdown do_shutdown_at
  do_shutdown-Closes bytes m h =
      subst
        (λ s.
          Closes (shuts_down e (feed e bytes m))
            (do_shutdown_at e s (feed e bytes m)).1.stream.status_)
        (sym h) (shutdown-Closes (feed e bytes m))

  disconnect_at-Leaves :
      (s : Status) (m : Machine e)
      → m.stream.status_ ≡ s
      → Leaves (shuts_down e m) s (disconnect_at e s m).1.stream.status_
  unfolding disconnect_at feed
  disconnect_at-Leaves connected m h =
      leaves refl (do_shutdown-Closes [] (with_status e closing m) refl)
  disconnect_at-Leaves closed m h =
      subst (Leaves (shuts_down e m) closed) (sym h) (stays (λ k. ground arith))
  disconnect_at-Leaves connecting m h =
      subst (Leaves (shuts_down e m) connecting) (sym h) (stays (λ k. ground arith))
  disconnect_at-Leaves peer_closing m h =
      subst (Leaves (shuts_down e m) peer_closing) (sym h) (stays (λ k. ground arith))
  disconnect_at-Leaves closing m h =
      subst (Leaves (shuts_down e m) closing) (sym h) (stays (λ k. ground arith))

  on_connected_at-Begins :
      (d : Side) (m : Machine e) → Begins e d m (on_connected_at e d m).1.stream.status_
  unfolding on_connected_at feed
  on_connected_at-Begins client m = do_connect-Opens [] m
  on_connected_at-Begins server m = refl

  write_at-status :
      (s : Status) (bytes : List ℕ) (m : Machine e)
      → m.stream.status_ ≡ (write_at e s bytes m).1.stream.status_
  unfolding write_at
  write_at-status connected bytes m =
      continue-Moved e (staying still) m (write_loop e (suc (length bytes)) bytes 0 m) _
        (write_loop-Moved e (staying still) _ bytes 0 m) (λ _ m'. drain-Moved e (staying still) m')
  write_at-status closed bytes m = refl
  write_at-status connecting bytes m = refl
  write_at-status peer_closing bytes m = refl
  write_at-status closing bytes m = refl

  -- However they end, where the layer above leaves the status alone: `on_connected` of a client makes of the status
  -- what the answer of its handshake call says, and leaves the status of a server; `disconnect` makes of it what
  -- the answer of SSL_shutdown says if it was `connected`, and leaves it otherwise; `write` leaves it.
  pub on_connected-Begins :
      (bytes : List ℕ) (m : Machine e)
      → Begins e m.stream.side_ m (on_connected e m).1.stream.status_
        × Leaves (shuts_down e m) m.stream.status_ (disconnect e m).1.stream.status_
        × (m.stream.status_ ≡ (write e bytes m).1.stream.status_)
  unfolding on_connected disconnect write
  on_connected-Begins bytes m = (
    on_connected_at-Begins m.stream.side_ m,
    disconnect_at-Leaves m.stream.status_ m refl,
    continue-Moved e (staying still) m (write_at e m.stream.status_ bytes m) _
        (write_at-status m.stream.status_ bytes m) (λ _ m'. refl),
  )

  abbrev Answered : Bool → Status → Type 0
  Answered told t = (asked answer : ℤ) → Receives asked answer told connected t

  answer_shutdown-Answered :
      (m : Machine e)
      → m.stream.status_ ≡ connected
      → Answered (peer_told e (ok tt, m)) (drain e (answer_shutdown e m)).1.stream.status_
  unfolding answer_shutdown peer_told
  answer_shutdown-Answered m h =
      let told = e.ssl_get_shutdown m.stream.ssl_ == ssl_received_shutdown in
      if_cases (λ (x : Machine e). Answered told (drain e x).1.stream.status_) told
        (λ yes asked answer.
          subst (Receives asked answer told connected) (drain-Moved e (staying still) _)
            (answers yes))
        (λ no asked answer.
          subst (Receives asked answer told connected) (sym h ∙ drain-Moved e (staying still) m)
            (goes_on no))

  answered :
      (x : Result (Unit {0}) × Machine e)
      → connected ≡ x.1.stream.status_
      → Answered
          (peer_told e x)
          (continue x (λ _ m'. drain e (answer_shutdown e m'))).1.stream.status_
  unfolding peer_told
  answered (ok u, m) h asked answer = answer_shutdown-Answered m (sym h) asked answer
  answered (throw x, m) h asked answer =
      subst (Receives asked answer false connected) h (goes_on refl)
  answered (out_of_fuel, m) h asked answer =
      subst (Receives asked answer false connected) h (goes_on refl)

  on_received_at-Receives :
      (s : Status) (bytes : List ℕ) (m : Machine e)
      → m.stream.status_ ≡ s
      → Receives
          (asks e (feed e bytes m))
          (shuts_down e (feed e bytes m))
          (peer_told e (feed_loop e (suc (length bytes)) bytes (pos 0) m))
          s
          (on_received_at e s bytes m).1.stream.status_
  unfolding on_received_at
  on_received_at-Receives closed bytes m h = opens tt (
      subst (λ s. Opens (asks e (feed e bytes m)) s (do_connect e bytes m).1.stream.status_) h
        (do_connect-Opens bytes m))
  on_received_at-Receives connecting bytes m h = opens tt (
      subst (λ s. Opens (asks e (feed e bytes m)) s (do_connect e bytes m).1.stream.status_) h
        (do_connect-Opens bytes m))
  on_received_at-Receives closing bytes m h = shuts (do_shutdown-Closes bytes m h)
  on_received_at-Receives peer_closing bytes m h =
      subst (Receives _ _ _ peer_closing) (sym h) ignores
  on_received_at-Receives connected bytes m h =
      answered (feed_loop e (suc (length bytes)) bytes (pos 0) m)
        (sym h ∙ feed_loop-Moved e (staying still) _ bytes (pos 0) m) _ _

  -- However it ends, where the layer above leaves the status alone, `on_received` makes of the status: in a
  -- handshake, what the answer of SSL_accept or SSL_connect says, after the bytes are in; while closing, what
  -- the answer of SSL_shutdown says; when connected, `peer_closing` if all bytes were taken and OpenSSL then has
  -- the close of the peer, and `connected` otherwise; and it leaves `peer_closing`.
  pub on_received-Receives :
      (bytes : List ℕ) (m : Machine e)
      → Receives
          (asks e (feed e bytes m))
          (shuts_down e (feed e bytes m))
          (peer_told e (feed_loop e (suc (length bytes)) bytes (pos 0) m))
          m.stream.status_
          (on_received e bytes m).1.stream.status_
  unfolding on_received
  on_received-Receives bytes m = on_received_at-Receives m.stream.status_ bytes m refl
