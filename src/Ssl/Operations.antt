-- ===== src/Ssl/Operations.antt =====
-- include/acpp-network/ssl/ssl.inl: shutting down, and the two directions of `ssl::stream`.
pub mod Lifecycle
pub mod Flush
pub mod Outgoing
pub mod Loops
pub mod Input
pub mod Incoming
pub mod Opened
pub mod Produced
use acpp_network.Prelude.{
  ℕ, zero, suc, ◌+◌, Bool, true, false, List, [], ◌∷◌, Action, ◌>>=◌, ok, throw, out_of_fuel,
  ssl_exception, ltb, ◌==◌, if◌then◌else◌, length, drop, is_empty, ℤ, pos, negsuc, ◌+ℤ◌, to_size,
  pos_part,
}
use acpp_network.Ssl.{
  Env, Machine, Side, client, server, Status, closed, connecting, connected, peer_closing, closing,
  is_closed, up_disconnected, with_ssl, with_status, call_up, drain, deliver, feed, do_connect,
  ssl_received_shutdown,
}

module _ (e : Env) where
  -- On the connection below: a client begins the handshake.
  on_connected_at : Side → Action (Machine e) (Unit {0})
  on_connected_at client m = do_connect e [] m
  on_connected_at server m = (ok tt, m)

  pub on_connected : Action (Machine e) (Unit {0})
  on_connected m = on_connected_at m.stream.side_ m

  -- It only logs.
  pub on_disconnected : Action (Machine e) (Unit {0})
  on_disconnected m = (ok tt, m)

  -- The status after a call of SSL_shutdown in the status `closing`.
  pub shut : ℤ → Status
  shut (pos zero) = closing
  shut (pos (suc zero)) = closed
  shut (pos (suc (suc n))) = closing
  shut (negsuc n) = closing

  pub shutdown : Machine e → Machine e
  shutdown m =
      let (r, s) = e.ssl_shutdown m.stream.ssl_ in
      record m { stream = record (m.stream) { ssl_ = s; status_ = shut r } }

  pub after_shutdown : Action (Machine e) (Unit {0})
  after_shutdown = drain e >>= λ _ m.
      deliver e (if is_closed m.stream.status_ then call_up e up_disconnected m else m)

  do_shutdown_at : Status → Action (Machine e) (Unit {0})
  do_shutdown_at closing m = after_shutdown (shutdown m)
  do_shutdown_at closed m = (throw ssl_exception, m)
  do_shutdown_at connecting m = (throw ssl_exception, m)
  do_shutdown_at connected m = (throw ssl_exception, m)
  do_shutdown_at peer_closing m = (throw ssl_exception, m)

  pub do_shutdown : List ℕ → Action (Machine e) (Unit {0})
  do_shutdown bytes m = do_shutdown_at m.stream.status_ (feed e bytes m)

  disconnect_at : Status → Action (Machine e) (Unit {0})
  disconnect_at connected m = do_shutdown [] (with_status e closing m)
  disconnect_at closed m = (ok tt, m)
  disconnect_at connecting m = (ok tt, m)
  disconnect_at peer_closing m = (ok tt, m)
  disconnect_at closing m = (ok tt, m)

  pub disconnect : Action (Machine e) (Unit {0})
  disconnect m = disconnect_at m.stream.status_ m

  -- The loop of `on_received` in the status `connected`: `tot_n` is an `int`, and is compared as a
  -- `size_t`.
  pub feed_loop : ℕ → List ℕ → ℤ → Action (Machine e) (Unit {0})
  feed_loop zero bytes tot_n m = (out_of_fuel, m)
  feed_loop (suc fuel) bytes tot_n m =
      let (n, s) = e.bio_write (drop (to_size tot_n) bytes) m.stream.ssl_ in
      let tot_n' = tot_n +ℤ n in
      let round =
        (deliver e >>= λ _. drain e >>= λ _. feed_loop fuel bytes tot_n') (with_ssl e s m) in
      if ltb (to_size tot_n) (length bytes) then round else (ok tt, m)

  -- The peer's close_notify is answered.
  pub answer_shutdown : Machine e → Machine e
  answer_shutdown m =
      if e.ssl_get_shutdown m.stream.ssl_ == ssl_received_shutdown
      then with_status e peer_closing (with_ssl e (e.ssl_shutdown m.stream.ssl_).1 m)
      else m

  on_received_at : Status → List ℕ → Action (Machine e) (Unit {0})
  on_received_at closed bytes m = do_connect e bytes m
  on_received_at connecting bytes m = do_connect e bytes m
  on_received_at closing bytes m = do_shutdown bytes m
  on_received_at connected bytes m =
      (feed_loop (suc (length bytes)) bytes (pos 0) >>= λ _ m'. drain e (answer_shutdown m')) m
  on_received_at peer_closing bytes m = (ok tt, m)

  pub on_received : List ℕ → Action (Machine e) (Unit {0})
  on_received bytes m = on_received_at m.stream.status_ bytes m

  -- The loop of `write`, which stops when SSL_write takes nothing.
  pub write_loop : ℕ → List ℕ → ℕ → Action (Machine e) (Unit {0})
  write_loop zero bytes total m = (out_of_fuel, m)
  write_loop (suc fuel) bytes total m =
      let (r, s) = e.ssl_write (drop total bytes) m.stream.ssl_ in
      let n = pos_part r in
      let round = (drain e >>= λ _. write_loop fuel bytes (total + n)) (with_ssl e s m) in
      if ltb total (length bytes)
      then if ltb 0 n then round else (ok tt, with_ssl e s m)
      else (ok tt, m)

  write_at : Status → List ℕ → Action (Machine e) (Unit {0})
  write_at connected bytes m = (write_loop (suc (length bytes)) bytes 0 >>= λ _. drain e) m
  write_at closed bytes m = (ok tt, m)
  write_at connecting bytes m = (ok tt, m)
  write_at peer_closing bytes m = (ok tt, m)
  write_at closing bytes m = (ok tt, m)

  -- `write` reports the whole length in every status.
  pub write : List ℕ → Action (Machine e) ℕ
  write bytes m = (write_at m.stream.status_ bytes >>= λ _ m'. (ok (length bytes), m')) m
