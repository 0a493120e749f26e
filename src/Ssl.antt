-- ===== src/Ssl.antt =====
-- include/acpp-network/ssl/ssl.inl: `ssl::stream`, the layer that encrypts. OpenSSL is a parameter; the
-- layer below is seen by what is written to it, and the layer above by the calls that it gets and by
-- what it does in them.
pub mod Operations
pub mod Channel
use acpp_network.Prelude.{
  ℕ, zero, suc, ◌+◌, ◌*◌, Bool, true, false, ◌||◌, List, [], ◌∷◌, ◌++◌, Action, ◌>>=◌, ok, throw,
  out_of_fuel, ssl_exception, ltb, ◌==◌, if◌then◌else◌, length, drop, is_empty, ℤ, pos, negsuc,
  ◌+ℤ◌, to_size,
}

-- An SSL object with its pair of BIOs. A read gives the bytes that were read, and none where the result
-- is not positive.
pub record OpenSsl : Type 1 where
  pub Ssl : Type 0
  pub bio_write : List ℕ → Ssl → ℤ × Ssl
  pub bio_read : ℕ → Ssl → List ℕ × Ssl
  pub ssl_accept : Ssl → ℤ × Ssl
  pub ssl_connect : Ssl → ℤ × Ssl
  pub ssl_read : ℕ → Ssl → List ℕ × Ssl
  pub ssl_write : List ℕ → Ssl → ℤ × Ssl
  pub ssl_shutdown : Ssl → ℤ × Ssl
  pub ssl_get_shutdown : Ssl → ℕ
  pub set_host_name : List ℕ → Ssl → Ssl

pub data Side : Type 0 where
  client server : Side

pub data Status : Type 0 where
  closed connecting connected peer_closing closing : Status

-- What the layer does to its neighbours: a write below, or a call above.
pub data Act : Type 0 where
  down : List ℕ → Act
  up_connected up_disconnected : Act
  up_received : List ℕ → Act

pub record Stream (o : OpenSsl) : Type 0 where
  pub side_ : Side
  pub status_ : Status
  pub hostname_ : List ℕ
  pub ssl_ : o.Ssl

-- The constructor, over the object of SSL_new.
pub create : {o : OpenSsl} → Side → o.Ssl → Stream o
create side s = record { side_ = side; status_ = closed; hostname_ = []; ssl_ = s }

pub set_hostname : {o : OpenSsl} → List ℕ → Stream o → Stream o
set_hostname name t = record t { hostname_ = name }

-- `app` is what the layer above does to the stream in a call, and what its own calls of the stream do to the neighbours; `read_fuel` bounds the rounds of a loop
-- of `SSL_read`.
pub record Env : Type 1 where
  pub openssl : OpenSsl
  pub open openssl use *
  pub app : Act → Stream openssl → Stream openssl × List Act
  pub read_fuel : ℕ

pub record Machine (e : Env) : Type 0 where
  pub stream : Stream e.openssl
  pub acts : List Act

-- The size of the local buffers.
abbrev pub buffer_size : ℕ
buffer_size = 1024 * 20

-- The size of each half of the BIO pair: the larger of the two that the constructors ask for (the other
-- is 1024 * 5).
abbrev pub bio_size : ℕ
bio_size = 1024 * 50

abbrev pub ssl_received_shutdown : ℕ
ssl_received_shutdown = 2

abbrev pub is_connected : Status → Bool
is_connected closed = false
is_connected connecting = false
is_connected connected = true
is_connected peer_closing = false
is_connected closing = false

abbrev pub is_closed : Status → Bool
is_closed closed = true
is_closed connecting = false
is_closed connected = false
is_closed peer_closing = false
is_closed closing = false

module _ (e : Env) where
  abbrev pub with_ssl : e.Ssl → Machine e → Machine e
  with_ssl s m = record m { stream = record (m.stream) { ssl_ = s } }

  abbrev pub with_status : Status → Machine e → Machine e
  with_status s m = record m { stream = record (m.stream) { status_ = s } }

  abbrev pub write_down : List ℕ → Machine e → Machine e
  write_down bytes m = record m { acts = m.acts ++ down bytes ∷ [] }

  pub call_up : Act → Machine e → Machine e
  call_up a m = let (t, more) = e.app a m.stream in record { stream = t; acts = m.acts ++ a ∷ more }

  -- `while (n = BIO_read(…), n > 0) next_.write(…)`
  pub drain_loop : ℕ → Action (Machine e) (Unit {0})
  drain_loop zero m = (out_of_fuel, m)
  drain_loop (suc fuel) m =
      let (bytes, s) = e.bio_read buffer_size m.stream.ssl_ in
      let rest = drain_loop fuel (write_down bytes (with_ssl s m)) in
      if is_empty bytes then (ok tt, with_ssl s m) else rest

  -- Each round takes a byte at least, and a BIO holds `bio_size`.
  pub drain : Action (Machine e) (Unit {0})
  drain = drain_loop (suc bio_size)

  -- `while (n = SSL_read(…), n > 0) prior->on_received(…)`
  pub deliver_loop : ℕ → Action (Machine e) (Unit {0})
  deliver_loop zero m = (out_of_fuel, m)
  deliver_loop (suc fuel) m =
      let (bytes, s) = e.ssl_read buffer_size m.stream.ssl_ in
      let rest = deliver_loop fuel (call_up (up_received bytes) (with_ssl s m)) in
      if is_empty bytes then (ok tt, with_ssl s m) else rest

  pub deliver : Action (Machine e) (Unit {0})
  deliver = deliver_loop e.read_fuel

  -- `if (len) BIO_write(…)`, whose result is not looked at.
  pub feed : List ℕ → Machine e → Machine e
  feed bytes m = if is_empty bytes then m else with_ssl (e.bio_write bytes m.stream.ssl_).1 m

  -- SSL_accept or SSL_connect, by the side, with the host name before it if there is one.
  pub shake : Side → Stream e.openssl → ℤ × e.Ssl
  shake server t = e.ssl_accept t.ssl_
  shake client t =
      e.ssl_connect (if is_empty t.hostname_ then t.ssl_ else e.set_host_name t.hostname_ t.ssl_)

  -- The status after a handshake call that returned a number.
  pub shaken : ℤ → Status
  shaken (pos zero) = closed
  shaken (pos (suc zero)) = connected
  shaken (pos (suc (suc n))) = connecting
  shaken (negsuc n) = connecting

  pub handshake : Machine e → Machine e
  handshake m =
      let (r, s) = shake m.stream.side_ m.stream in
      record m { stream = record (m.stream) { ssl_ = s; status_ = shaken r } }

  -- The output goes down, the layer above is told, and what was decrypted goes up.
  pub after_handshake : Action (Machine e) (Unit {0})
  after_handshake =
      drain >>= λ _ m. deliver (if is_connected m.stream.status_ then call_up up_connected m else m)

  do_connect_at : Status → Action (Machine e) (Unit {0})
  do_connect_at closed m = after_handshake (handshake m)
  do_connect_at connecting m = after_handshake (handshake m)
  do_connect_at connected m = (throw ssl_exception, m)
  do_connect_at peer_closing m = (throw ssl_exception, m)
  do_connect_at closing m = (throw ssl_exception, m)

  pub do_connect : List ℕ → Action (Machine e) (Unit {0})
  do_connect bytes m = do_connect_at m.stream.status_ (feed bytes m)
