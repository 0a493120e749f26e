-- ===== src/Tests/Mac.antt =====
-- A kqueue with one connection, on descriptor 3, and the theorems on its socket.
use acpp_network.Prelude.{
  ℕ, ◌-◌, ◌≡◌, refl, sym, ◌∙◌, true, false, List, [], ◌∷◌, ◌++◌, Option, none, some, min, arith,
  ◌==◌, if◌then◌else◌, length, take, drop, take-append-drop, Ensures,
}
use acpp_network.Posix.{Posix}
use acpp_network.MacSocket.{Kqueue, Env, Machine, so_write}
use acpp_network.MacSocket.Write.{WriteLaws, IsQuiet, mac_so_write-Sent}
use acpp_network.MacSocket.Events.{read_size, read_event}
use acpp_network.MacSocket.Events.Drained.{Receives, ReadLaws, Drained, read_event-Drained}
use acpp_network.LinuxSocket.Laws.{Sends}
use acpp_network.Writer.{Sent}
use acpp_network.Tests.Toy.{Kernel, toy_posix, every_callback}

-- With no room it says EAGAIN.
abbrev send : List ℕ → Kernel → Option ℕ × Kernel
send bytes k = if k.room == 0 then (none, record k { err = 35 }) else (
  some (min k.room (length bytes)),
  record k {
    room = k.room - min k.room (length bytes);
    gone = k.gone ++ take (min k.room (length bytes)) bytes;
  },
)

-- With nothing to read it says EAGAIN.
abbrev taken : ℕ → List ℕ → Kernel → Option (List ℕ) × Kernel
taken n [] k = (none, record k { err = 35 })
taken n (b ∷ bs) k = (some (take n (b ∷ bs)), record k { arrived = drop n (b ∷ bs) })

abbrev kqueue_posix : Posix
kqueue_posix = record toy_posix {
  send = λ _ bytes k. send bytes k;
  recv = λ _ n k. taken n k.arrived k;
}

abbrev toy : Kqueue
toy = record { posix = kqueue_posix; kqueue = λ k. (some 9, k); kevent = λ _ _ k. (true, k) }

abbrev env : Env
env = record { mac = toy; kq = some 9; alloc = λ _. 100; app = λ _ s k. (s, k) }

-- The connected socket, with room for two bytes and three to be read.
abbrev machine : Machine env
machine = record {
  sock = record {
    this = 50;
    domain_ = 2;
    type_ = 1;
    protocol_ = 6;
    fd_ = some 3;
    callbacks_ = every_callback;
    connected_ = true;
    listening_ = false;
  };
  kernel = record {
    err = 0;
    room = 2;
    gone = [];
    arrived = 7 ∷ 8 ∷ 9 ∷ [];
    entry = none;
    closed = [];
  };
  calls = [];
}

send_Sends : (bytes : List ℕ) (k : Kernel) → Sends (λ (x : Kernel). x.gone) bytes k (send bytes k)
send_Sends bytes k = ground arith

abbrev laws : WriteLaws toy (some 9) (some 3)
laws = record {
  out = λ (k : Kernel). k.gone;
  send_Sends = send_Sends;
  kevent_out = λ c k. refl;
  kevent_ok = λ this k. refl;
}

taken_Receives :
    (waits : List ℕ) (k : Kernel)
    → k.arrived ≡ waits
    → Receives toy (λ (x : Kernel). x.arrived) k (taken read_size waits k)
taken_Receives [] k e = (e, e, refl)
taken_Receives (b ∷ bs) k e = e ∙ sym (take-append-drop read_size (b ∷ bs))

abbrev read_laws : ReadLaws env (some 3)
read_laws = record {
  arrived = λ (k : Kernel). k.arrived;
  recv_Receives = λ k. taken_Receives k.arrived k refl;
  app_arrived = λ c s k. refl;
  app_socket = λ c s k. (refl, refl);
}

quiet : IsQuiet env (λ (k : Kernel). k.gone)
quiet n h s k = refl

mac_so_write-Sent_example :
    Ensures
      (Sent (λ (x : Machine env). x.kernel.gone) (1 ∷ 2 ∷ 3 ∷ []) machine)
      (so_write env (1 ∷ 2 ∷ 3 ∷ []) machine)
mac_so_write-Sent_example = mac_so_write-Sent env laws quiet (1 ∷ 2 ∷ 3 ∷ []) machine refl

read_event-Drained_example : Ensures (Drained env read_laws machine) (read_event env 4 machine)
read_event-Drained_example =
    read_event-Drained env read_laws 4 machine (omega arith)
      (record { own = refl; hears = refl; sees_end = refl }) refl
