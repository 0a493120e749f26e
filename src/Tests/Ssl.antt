-- ===== src/Tests/Ssl.antt =====
-- The encrypting layer over a small OpenSSL: a record layer that adds one to every byte, with a
-- handshake and a shutdown that succeed at once.
use acpp_network.Prelude.{
  ℕ, ◌+◌, ◌≡◌, refl, sym, ap, true, List, [], ◌∷◌, ◌++◌, map, Ensures, arith, length, length-take,
  take, take-length, is_empty, append-nil, pos, drop,
}
use mathlib.Core.Bool.{false≢true}
use acpp_network.Ssl.{OpenSsl, Env, Machine, client, connected, bio_size, drain, feed}
use acpp_network.Ssl.Operations.{feed_loop, on_connected, on_received, disconnect, write}
use acpp_network.Ssl.Operations.Flush.{View, SslLaws, Flushed, drain-Flushed}
use acpp_network.Ssl.Operations.Outgoing.{Written, write-Written}
use acpp_network.Ssl.Operations.Lifecycle.{
  Begins, Leaves, Receives, peer_told, asks, shuts_down, on_connected-Begins, on_received-Receives,
}

record Toy : Type 0 where
  waiting : List ℕ
  taken : List ℕ
  input : List ℕ

abbrev openssl : OpenSsl
openssl = record {
  Ssl = Toy;
  bio_write = λ bytes s. (pos (length bytes), record s { input = s.input ++ bytes });
  bio_read = λ n s. (take bio_size s.waiting, record s { waiting = [] });
  ssl_accept = λ s. (pos 1, s);
  ssl_connect = λ s. (pos 1, s);
  ssl_read = λ n s. (take n s.input, record s { input = drop n s.input });
  ssl_write = λ bytes s. (
    pos (length bytes),
    record s { waiting = s.waiting ++ map (λ b. b + 1) bytes; taken = s.taken ++ bytes },
  );
  ssl_shutdown = λ s. (pos 1, s);
  ssl_get_shutdown = λ s. 0;
  set_host_name = λ name s. s;
}

abbrev env : Env
env = record { openssl = openssl; app = λ a t. (t, []); read_fuel = 10 }

abbrev machine : Machine env
machine = record {
  stream = record {
    side_ = client;
    status_ = connected;
    hostname_ = [];
    ssl_ = record { waiting = 7 ∷ []; taken = []; input = [] };
  };
  acts = [];
}

abbrev view : View openssl
view = record { cipher = λ s. take bio_size s.waiting; sealed = λ s. s.taken }

is_empty-nil : (xs : List ℕ) → is_empty xs ≡ true → xs ≡ []
is_empty-nil [] h = refl
is_empty-nil (x ∷ xs) h = absurd (false≢true h)

laws : SslLaws openssl
laws = record {
  view = view;
  fits = λ s. (let t = length-take bio_size s.waiting in omega arith);
  reads = λ s. record {
    front = sym (append-nil (take bio_size s.waiting));
    ends = is_empty-nil (take bio_size s.waiting);
    seals = refl;
  };
  writes = λ bytes s. record {
    within = omega arith;
    prefix = ap (λ x. s.taken ++ x) (sym (take-length (length bytes) bytes (omega arith)));
  };
}

drain-Flushed_example : Ensures (Flushed env laws machine) (drain env machine)
drain-Flushed_example = drain-Flushed env laws machine

write-Written_example :
    Ensures (Written env laws (1 ∷ 2 ∷ []) machine) (write env (1 ∷ 2 ∷ []) machine)
write-Written_example = write-Written env laws (1 ∷ 2 ∷ []) machine refl

on_connected-Begins_example :
    Begins env client machine (on_connected env machine).1.stream.status_
    × Leaves (shuts_down env machine) connected (disconnect env machine).1.stream.status_
    × (connected ≡ (write env (1 ∷ []) machine).1.stream.status_)
on_connected-Begins_example = on_connected-Begins env (λ a t. refl) (1 ∷ []) machine

on_received-Receives_example :
    Receives
      (asks env (feed env (4 ∷ []) machine))
      (shuts_down env (feed env (4 ∷ []) machine))
      (peer_told env (feed_loop env 2 (4 ∷ []) (pos 0) machine))
      connected
      (on_received env (4 ∷ []) machine).1.stream.status_
on_received-Receives_example = on_received-Receives env (λ a t. refl) (4 ∷ []) machine
