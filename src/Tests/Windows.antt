-- ===== src/Tests/Windows.antt =====
-- A completion port whose sends and accepts complete in the order of the calls, and the theorems on it.
use acpp_network.Prelude.{
  ℕ, suc, ◌+◌, ◌≤◌, ◌≡◌, ◌≢◌, refl, Bool, true, false, List, [], ◌∷◌, none, some, throw,
  socket_exception, ok, arith, ◌==◌, if◌then◌else◌, if_cases,
}
use acpp_network.WindowsSocket.{
  read_operation, Winsock, Env, Machine, Completion, SocketBasePimpl, Operation, write_operation,
  accept_operation,
}
use acpp_network.WindowsSocket.Operations.{write}
use acpp_network.WindowsSocket.Port.{loop, invoke}
use acpp_network.WindowsSocket.Writes.{
  SendLaws, IsSerial, AppIsSerial, write-IsSerial, loop-IsSerial,
}
use acpp_network.WindowsSocket.Stuck.{Event, writes, handles, after_all, write_stuck}
use acpp_network.WindowsSocket.Accepts.{AcceptLaws, total, NoListen, loop-total}
use acpp_network.Tests.Toy.{every_callback}

-- The keys of the sends and of the accepts under way; a broken connection refuses a send.
record Kernel : Type 0 where
  err : ℕ
  broken : Bool
  sends : List ℕ
  accepts : List ℕ

abbrev is : ℕ → ℕ → ℕ
is a b = if b == a then 1 else 0

abbrev count : ℕ → List ℕ → ℕ
count a [] = 0
count a (b ∷ bs) = is a b + count a bs

abbrev send : ℕ → Kernel → Bool × Kernel
send a k =
    if k.broken then (false, record k { err = 10054 }) else (true, record k { sends = a ∷ k.sends })

abbrev done : ℕ → Operation → Completion
done a op = record { success = true; key = some a; overlapped = some op }

abbrev completion : List ℕ → List ℕ → Kernel → Completion × Kernel
completion (a ∷ more) sends k =
    (done a accept_operation, record k { accepts = more; sends = sends })
completion [] (a ∷ more) k = (done a write_operation, record k { accepts = []; sends = more })
completion [] [] k = (
  record { success = false; key = none; overlapped = none },
  record k { err = 258; accepts = []; sends = [] },
)

abbrev toy : Winsock
toy = record {
  Kernel = Kernel;
  last_error = λ k. k.err;
  wsa_socket = λ _ _ _ k. (some 4, k);
  bind = λ _ _ _ k. (true, k);
  listen = λ _ _ k. (true, k);
  shutdown = λ _ k. k;
  closesocket = λ _ k. k;
  find_accept_ex = λ _ k. (some true, k);
  find_connect_ex = λ _ k. (some true, k);
  accept_ex = λ _ a _ k. (true, record k { accepts = a ∷ k.accepts });
  connect_ex = λ _ _ _ _ k. (true, k);
  wsa_recv = λ _ _ _ k. (true, k);
  wsa_send = λ _ a _ k. send a k;
  create_port = λ k. (some 9, k);
  associate = λ _ _ _ k. k;
  post_exec = λ _ _ k. (true, k);
}

-- An application whose callbacks do nothing.
abbrev env : Env
env = record {
  winsock = toy;
  alloc = λ _. 100;
  app = λ _ m. m;
  get_completion = λ k. completion k.accepts k.sends k;
}

abbrev socket : Bool → SocketBasePimpl
socket busy = record {
  fd_ = some 3;
  callbacks_ = every_callback;
  domain_ = 2;
  type_ = 1;
  protocol_ = 6;
  write_in_use = busy;
  write_buffer = [];
  new_socket = some 60;
}

-- All keys have the same socket.
abbrev machine : Bool → Bool → List ℕ → List ℕ → Machine toy
machine broken busy sends accepts = record {
  sockets = λ _. some (socket busy);
  kernel = record { err = 0; broken = broken; sends = sends; accepts = accepts };
  run = true;
  port = 9;
  calls = [];
}

abbrev idle : Machine toy
idle = machine false false [] []

abbrev busy : Machine toy
busy = machine false true (50 ∷ []) []

abbrev listening : Machine toy
listening = machine false false [] (50 ∷ [])

is_le : (a b : ℕ) → is a b ≤ 1
is_le a b = if_cases (λ n. n ≤ 1) (b == a) (λ _. omega arith) (λ _. omega arith)

send_one : (a : ℕ) (k : Kernel) → count a (send a k).1.sends ≤ suc (count a k.sends)
send_one a k = let i = is_le a a in ground arith

send_other : (a b : ℕ) (k : Kernel) → a ≢ b → count b (send a k).1.sends ≡ count b k.sends
send_other a b k ne = ground arith

completion_le :
    (accepts sends : List ℕ) (k : Kernel) (b : ℕ)
    → (count b (completion accepts sends k).1.sends ≤ count b sends)
      × (count b (completion accepts sends k).1.accepts ≤ count b accepts)
completion_le (a ∷ more) sends k b = (omega arith, omega arith)
completion_le [] (a ∷ more) k b = (omega arith, omega arith)
completion_le [] [] k b = (omega arith, omega arith)

is_same : (a : ℕ) → is a a ≡ 1
is_same a = ground arith

completion_write :
    (accepts sends : List ℕ) (k : Kernel) (a : ℕ)
    → (completion accepts sends k).0.key ≡ some a
    → (completion accepts sends k).0.overlapped ≡ some write_operation
    → suc (count a (completion accepts sends k).1.sends) ≡ count a sends
completion_write (b ∷ bs) sends k a key op = absurd (cc)
completion_write [] (b ∷ bs) k a key op = let same = is_same a in ground arith
completion_write [] [] k a key op = absurd (cc)

completion_accept :
    (accepts sends : List ℕ) (k : Kernel) (a : ℕ)
    → (completion accepts sends k).0.key ≡ some a
    → (completion accepts sends k).0.overlapped ≡ some accept_operation
    → suc (count a (completion accepts sends k).1.accepts) ≡ count a accepts
completion_accept (b ∷ bs) sends k a key op = let same = is_same a in ground arith
completion_accept [] (b ∷ bs) k a key op = absurd (cc)
completion_accept [] [] k a key op = absurd (cc)

abbrev send_laws : SendLaws env
send_laws = record {
  outstanding = λ (k : Kernel) a. count a k.sends;
  send_one = λ _ a _ k. send_one a k;
  send_other = λ _ a b _ k ne. send_other a b k ne;
  recv_same = λ _ _ _ _ _. refl;
  completion_le = λ k b. (completion_le k.accepts k.sends k b).0;
  completion_write = λ k a. completion_write k.accepts k.sends k a;
}

abbrev accept_laws : AcceptLaws env
accept_laws = record {
  pending = λ (k : Kernel) a. count a k.accepts;
  recv_same = λ _ _ _ _ _. refl;
  completion_le = λ k b. (completion_le k.accepts k.sends k b).1;
  completion_accept = λ k a. completion_accept k.accepts k.sends k a;
}

app_IsSerial : AppIsSerial env send_laws
unfolding invoke
app_IsSerial c m v = v

app_NoListen : NoListen env accept_laws 50
app_NoListen c m = omega arith

idle-IsSerial : IsSerial env send_laws idle
idle-IsSerial a s own = omega arith

busy-IsSerial : IsSerial env send_laws busy
busy-IsSerial a s own = let i = is_le a 50 in ground arith

write-IsSerial_example : IsSerial env send_laws (write env 50 (1 ∷ 2 ∷ []) idle).1
write-IsSerial_example =
    write-IsSerial env send_laws app_IsSerial 50 (1 ∷ 2 ∷ []) idle idle-IsSerial

loop-IsSerial_example : IsSerial env send_laws (loop env 5 busy).1
loop-IsSerial_example = loop-IsSerial env send_laws app_IsSerial 5 busy busy-IsSerial

abbrev broken : Machine toy
broken = machine true false [] []

-- A write that finds the operation in use, bytes for the socket, and a write to another.
abbrev later : List Event
later = writes 50 (3 ∷ []) ∷ handles (done 50 (read_operation (7 ∷ []))) ∷ writes 60 (4 ∷ []) ∷ []

write_stuck_example :
    let t = after_all env later (write env 50 (1 ∷ []) broken).1 in
    ((write env 50 (1 ∷ []) broken).0 ≡ throw (socket_exception 10054))
    × (write env 50 (2 ∷ []) t ≡ (ok 0, t))
write_stuck_example =
    write_stuck env 50 (λ c m h. h) (socket false) (1 ∷ []) later (2 ∷ []) broken refl refl
      ((λ key over. ground arith), tt) refl

loop-total_example :
    total env accept_laws 50 (loop env 5 listening).1 ≤ total env accept_laws 50 listening
loop-total_example = loop-total env accept_laws 50 app_NoListen 5 listening
