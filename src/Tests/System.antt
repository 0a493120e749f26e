-- ===== src/Tests/System.antt =====
-- The sockets' descriptors, the loop, the layers and the addresses at small inputs.
use acpp_network.Prelude.{
  ◌==◌, if◌then◌else◌, ℕ, zero, suc, ◌<◌, ◌≡◌, refl, true, List, [], ◌∷◌, none, some, Ensures,
  arith, length,
}
use acpp_network.Posix.{Posix}
use acpp_network.SyncSocket.{Objects}
use acpp_network.SyncSocket.Ownership.{
  Descriptors, OwnedBy, AllFit, Op, adopts, creates, moves, assigns, accepts, closes, run_all,
  run_all-Owned,
}
use acpp_network.EventLoop.{Env, Do, do_exec, do_stop, Loop, handle_exec}
use acpp_network.EventLoop.Queue.{handle_exec-Served}
use acpp_network.Layers.{
  Stack, Kind, bottom, over, chain_type, it, get_prev, socket_stream, ssl_stream, stream,
}
use acpp_network.Layers.Casts.{Within, get_prev-cast}
use acpp_network.Address.{
  IpSocketaddress, ip4, af_inet, to_sockaddr, from_sockaddr, copied, get_family,
}
use acpp_network.Address.Roundtrip.{from_sockaddr-to_sockaddr}
use acpp_network.AsyncSocket.{Owners}
use acpp_network.Tests.Toy.{toy, machine, env}

-- A system that gives the descriptors 0, 1, 2, … and uses none again.
abbrev counting : Posix
counting = record {
  Kernel = ℕ;
  errno = λ k. 0;
  socket = λ _ _ _ k. (some k, suc k);
  close = λ fd k. k;
  fcntl_getfl = λ _ k. (0, k);
  fcntl_setfl = λ _ _ k. k;
  getsockopt = λ _ _ k. (some 0, k);
  setsockopt = λ _ _ _ k. (true, k);
  bind = λ _ _ _ k. (true, k);
  connect = λ _ _ _ k. (true, k);
  listen = λ _ _ k. (true, k);
  accept = λ _ k. (some k, suc k);
  send = λ _ bytes k. (some (length bytes), k);
  recv = λ _ _ k. (none, k);
  sendto = λ _ bytes _ _ k. (some (length bytes), k);
  recvfrom = λ _ _ _ k. (none, k);
}

some_eq : (k f : ℕ) → some k ≡ some f → k ≡ f
some_eq k f h = ground arith

descriptors : Descriptors counting
descriptors = record {
  IsOpen = λ f k. f < k;
  socket_new = λ _ _ _ k f h. (let e = some_eq k f h in omega arith);
  socket_fresh = λ _ _ _ k f h lt. (let e = some_eq k f h in absurd (omega arith));
  socket_keeps = λ _ _ _ k g h. (omega arith);
  accept_new = λ _ k f h. (let e = some_eq k f h in omega arith);
  accept_fresh = λ _ k f h lt. (let e = some_eq k f h in absurd (omega arith));
  accept_keeps = λ _ k g h. (omega arith);
  close_keeps = λ _ k g ne h. h;
}

abbrev no_objects : Objects counting.Kernel
no_objects = record { fd_ = λ _. none; kernel = 3 }

none-some : (f : ℕ) → none ≡ some f → ⊥
none-some f h = ground arith

no_objects-Owned : OwnedBy counting descriptors no_objects
no_objects-Owned = record {
  holds = λ a f h. absurd (none-some f h);
  alone = λ a b f h i. absurd (none-some f h);
}

abbrev ops : List Op
ops = creates 1 2 1 0 ∷ moves 2 1 ∷ accepts 3 2 ∷ assigns 2 3 ∷ closes 2 ∷ adopts 4 none ∷ []

ops-AllFit : AllFit counting descriptors ops no_objects
ops-AllFit = (tt, (tt, (tt, (tt, (tt, (λ f h. absurd (none-some f h), tt))))))

run_all-Owned_example : OwnedBy counting descriptors (run_all counting ops no_objects)
run_all-Owned_example =
    run_all-Owned counting descriptors ops no_objects ops-AllFit no_objects-Owned

-- The callback 0 passes 8 and 9 on, and each other stops the loop.
abbrev calls : ℕ → List Do
calls zero = do_exec 8 ∷ do_exec 9 ∷ []
calls (suc n) = do_stop ∷ []

abbrev loop_env : Env
loop_env = record { linux = toy; calls = calls; other_handler = λ ev k. ([], k) }

abbrev busy : Loop loop_env
busy = record {
  io = record {
    run = true;
    epollfd = some 9;
    exec_handler = 40;
    exec_fd = some 10;
    pending_callbacks_ = 0 ∷ 5 ∷ [];
  };
  kernel = machine.kernel;
  cont = 0;
  ran = 1 ∷ [];
}

handle_exec-Served_example :
    Ensures
      (λ _ m'. (m'.ran ≡ 1 ∷ 0 ∷ 5 ∷ []) × (m'.io.pending_callbacks_ ≡ 8 ∷ 9 ∷ []))
      (handle_exec loop_env busy)
handle_exec-Served_example = handle_exec-Served loop_env (λ fd n k. refl) busy

abbrev secure : Stack
secure = over stream (over ssl_stream (bottom socket_stream))

get_prev-cast_example :
    ((k : Kind) (t : Stack)
      → Within (over k t) secure
      → get_prev (chain_type secure) (it t) 64 ≡ some (k, 64))
    × (get_prev (chain_type secure) (it secure) 64 ≡ none)
get_prev-cast_example = get_prev-cast secure 64

abbrev local : IpSocketaddress
local = ip4 (record {
  sin_family = af_inet;
  sin_port = 31 ∷ 144 ∷ [];
  sin_addr = 127 ∷ 0 ∷ 0 ∷ 1 ∷ [];
  sin_zero = 0 ∷ 0 ∷ 0 ∷ 0 ∷ 0 ∷ 0 ∷ 0 ∷ 0 ∷ [];
})

from_sockaddr-to_sockaddr_example :
    (from_sockaddr (to_sockaddr local) ≡ copied local)
    × ((to_sockaddr local).sa_family ≡ get_family local)
from_sockaddr-to_sockaddr_example =
    from_sockaddr-to_sockaddr local
      (record { family = refl; port_size = refl; addr_size = refl; zero_size = refl })

abbrev owners : Owners env
owners = record {
  pimpl_ = λ a. if a == 1 then some machine.sock else none;
  kernel = machine.kernel;
}
