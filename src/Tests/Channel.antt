-- ===== src/Tests/Channel.antt =====
-- Two encrypting layers over a small OpenSSL, whose records are the plain bytes, and whose buffers are bounded.
use acpp_network.Prelude.{
  ℕ, ◌-◌, ◌≤◌, ◌<◌, ◌≡◌, refl, sym, ap, ◌∙◌, true, List, [], ◌∷◌, ◌++◌, Ensures, arith, length,
  length-append, length-take, length-drop, take, drop, take-append-drop, is_empty, append-nil,
  append_assoc, pos, min,
}
use acpp_network.Ssl.{OpenSsl, Env, Machine, client, connected, bio_size, buffer_size}
use acpp_network.Ssl.Operations.{on_received}
use acpp_network.Ssl.Operations.Flush.{SslLaws}
use acpp_network.Ssl.Operations.Input.{ReceiveLaws}
use acpp_network.Ssl.Operations.Opened.{IsOpen, Received, on_received-Received}
use acpp_network.Ssl.Operations.Produced.{SendLaws}
use acpp_network.Ssl.Channel.{
  concat, Network, ChannelLaws, Across, write_across, write_across-Across,
}

record Toy : Type 0 where
  waiting : List ℕ
  fits : length waiting ≤ bio_size
  taken : List ℕ
  opened : List ℕ
  input : List ℕ
  holds : length input ≤ 100

abbrev room : List ℕ → Toy → ℕ
room bytes s = min (length bytes) (bio_size - length s.waiting)

abbrev space : List ℕ → Toy → ℕ
space bytes s = min (length bytes) (100 - length s.input)

seal_fits : (bytes : List ℕ) (s : Toy) → length (s.waiting ++ take (room bytes s) bytes) ≤ bio_size
seal_fits bytes s =
    let f = s.fits in
    omega
      (arith, length-append s.waiting (take (room bytes s) bytes), length-take (room bytes s) bytes)

feed_holds : (bytes : List ℕ) (s : Toy) → length (s.input ++ take (space bytes s) bytes) ≤ 100
feed_holds bytes s =
    let f = s.holds in
    omega
      (arith, length-append s.input (take (space bytes s) bytes), length-take (space bytes s) bytes)

room_within : (bytes : List ℕ) (s : Toy) → room bytes s ≤ length bytes
room_within bytes s = omega arith

space_within : (bytes : List ℕ) (s : Toy) → space bytes s ≤ length bytes
space_within bytes s = omega arith

space_some : (bytes : List ℕ) (s : Toy) → 0 < length bytes → s.input ≡ [] → 0 < space bytes s
space_some bytes s h idle = omega (arith, ap length idle)

read_holds : (n : ℕ) (s : Toy) → length (drop n s.input) ≤ 100
read_holds n s = let f = s.holds in omega (arith, length-drop n s.input)

nothing_fits : length {A = ℕ} [] ≤ bio_size
nothing_fits = omega arith

abbrev openssl : OpenSsl
openssl = record {
  Ssl = Toy;
  bio_write = λ bytes s. (
    pos (space bytes s),
    record s { input = s.input ++ take (space bytes s) bytes; holds = feed_holds bytes s },
  );
  bio_read = λ n s. (s.waiting, record s { waiting = []; fits = nothing_fits });
  ssl_accept = λ s. (pos 1, s);
  ssl_connect = λ s. (pos 1, s);
  ssl_read = λ n s. (
    take n s.input,
    record s {
      input = drop n s.input;
      holds = read_holds n s;
      opened = s.opened ++ take n s.input;
    },
  );
  ssl_write = λ bytes s. (
    pos (room bytes s),
    record s {
      waiting = s.waiting ++ take (room bytes s) bytes;
      fits = seal_fits bytes s;
      taken = s.taken ++ take (room bytes s) bytes;
    },
  );
  ssl_shutdown = λ s. (pos 1, s);
  ssl_get_shutdown = λ s. 0;
  set_host_name = λ name s. s;
}

abbrev env : Env
env = record { openssl = openssl; app = λ a t. (t, []); read_fuel = 101 }

is_empty-nil : (xs : List ℕ) → is_empty xs ≡ true → xs ≡ []
is_empty-nil [] h = refl
is_empty-nil (x ∷ xs) h = absurd (cc)

input_ends : (xs : List ℕ) → is_empty (take buffer_size xs) ≡ true → xs ≡ []
input_ends [] h = refl
input_ends (x ∷ xs) h = absurd (cc)

input_left : (xs : List ℕ) → is_empty (take buffer_size xs) ≡ true → drop buffer_size xs ≡ []
input_left [] h = refl
input_left (x ∷ xs) h = absurd (cc)

abbrev out_laws : SslLaws openssl
out_laws = record {
  view = record { cipher = λ (s : Toy). s.waiting; sealed = λ (s : Toy). s.taken };
  fits = λ s. s.fits;
  reads = λ s. record {
    front = sym (append-nil s.waiting);
    ends = is_empty-nil s.waiting;
    seals = refl;
  };
  writes = λ bytes s. record { within = room_within bytes s; prefix = refl };
}

abbrev send_laws : SendLaws openssl out_laws
send_laws = record {
  produced = λ (s : Toy). s.taken;
  decode = λ bytes. bytes;
  decodes = λ s. refl;
  read_produced = λ s. refl;
  write_produced = λ bytes s. (take (room bytes s) bytes, refl, refl);
}

abbrev receive_laws : ReceiveLaws openssl
receive_laws = record {
  inside = record {
    fed = λ (s : Toy). s.opened ++ s.input;
    opened = λ (s : Toy). s.opened;
    ready = λ (s : Toy). s.input;
    IsIdle = λ (s : Toy). s.input ≡ [];
  };
  decode = λ bytes. bytes;
  decodes = λ s. refl;
  feeds = λ bytes s some_byte idle. record {
    n = space bytes s;
    counted = refl;
    some_fed = space_some bytes s some_byte idle;
    within = space_within bytes s;
    feeds = sym (append_assoc s.opened s.input (take (space bytes s) bytes));
    same = refl;
  };
  opens = λ s. record {
    same =
        append_assoc s.opened (take buffer_size s.input) (drop buffer_size s.input)
        ∙ ap (λ x. s.opened ++ x) (take-append-drop buffer_size s.input);
    opens = refl;
    front = sym (take-append-drop buffer_size s.input);
    ends = λ h. (input_ends s.input h, input_left s.input h);
  };
  apart = λ s. record { fed = refl; opened = refl; ready = refl; idle = λ h. h };
  stays = λ s. refl;
}

enough : (s : Toy) → length s.input < 101
enough s = let f = s.holds in omega arith

abbrev laws : ChannelLaws env env
laws = record {
  s_out = out_laws;
  r_out = out_laws;
  sends = send_laws;
  receives = receive_laws;
  agree = λ bytes. refl;
  alone = λ a t. refl;
  enough = enough;
}

-- An end of a connection on which nothing has been sent.
abbrev machine : Machine env
machine = record {
  stream = record {
    side_ = client;
    status_ = connected;
    hostname_ = [];
    ssl_ = record {
      waiting = [];
      fits = nothing_fits;
      taken = [];
      opened = [];
      input = [];
      holds = omega arith;
    };
  };
  acts = [];
}

is_open : IsOpen env receive_laws (λ a t. refl) machine
is_open = record {
  status = refl;
  settled = record { none_ready = refl; idle = refl };
  given = refl;
}

-- Each byte arrives alone.
abbrev singles : List ℕ → List (List ℕ)
singles [] = []
singles (b ∷ bytes) = (b ∷ []) ∷ singles bytes

singles_whole : (bytes : List ℕ) → concat (singles bytes) ≡ bytes
singles_whole [] = refl
singles_whole (b ∷ bytes) = ap (λ x. b ∷ x) (singles_whole bytes)

abbrev slow : Network
slow = record { cut = singles; whole = singles_whole }

on_received-Received_example :
    Ensures
      (Received env receive_laws (λ a t. refl) (1 ∷ 2 ∷ []) machine)
      (on_received env (1 ∷ 2 ∷ []) machine)
on_received-Received_example =
    on_received-Received env receive_laws (λ a t. refl) out_laws enough (1 ∷ 2 ∷ []) machine is_open

write_across-Across_example :
    Ensures
      (Across env env laws (1 ∷ 2 ∷ 3 ∷ []) (machine, machine))
      (write_across env env slow (1 ∷ 2 ∷ 3 ∷ []) (machine, machine))
write_across-Across_example =
    write_across-Across env env laws slow (1 ∷ 2 ∷ 3 ∷ []) machine machine
      (record { status = refl; linked = refl; flushed = refl; receiver = is_open; wire = refl })
