-- ===== src/EventLoop.antt =====
-- src/linux/socket_base.cpp: `io_context` with its queue of `exec`, its loop, and the timers.
pub mod Queue
pub mod Timers
use Prim.Native.Nat.{bit_or, bit_and}
use acpp_network.Prelude.{
  ℕ, zero, suc, ◌+◌, ◌*◌, ◌/◌, ◌%◌, Bool, true, false, List, [], ◌∷◌, ◌++◌, none, some, Option,
  Action, ◌>>=◌, ok, throw, out_of_fuel, socket_exception, ◌==◌, if◌then◌else◌,
}
use acpp_network.Posix.{
  Fd, invalid_fd, Linux, EpollEvent, CtlMode, ctl_add, ctl_mod, epollin, epolloneshot, ITimerSpec,
}

-- What a callback does to the loop that runs it.
pub data Do : Type 0 where
  do_exec : ℕ → Do
  do_stop : Do

pub record IoContext : Type 0 where
  pub run : Bool
  pub epollfd : Fd
  -- `exec_handler_`: its address and its eventfd.
  pub exec_handler : ℕ
  pub exec_fd : Fd
  -- The queue, with the front at the head; a callback is named by a number.
  pub pending_callbacks_ : List ℕ

-- The system, what each callback does, and what the other handlers (sockets and timers) do on an event.
pub record Env : Type 1 where
  pub linux : Linux
  pub open linux use *
  pub calls : ℕ → List Do
  pub other_handler : EpollEvent → Kernel → List Do × Kernel

-- `ran` is the callbacks that have run, and `cont` the static counter of `trigger`.
pub record Loop (e : Env) : Type 0 where
  pub io : IoContext
  pub kernel : e.Kernel
  pub cont : ℕ
  pub ran : List ℕ

abbrev pub max_events : ℕ
max_events = 5

module _ (e : Env) where
  after_ctl : Fd → Fd → ℕ → Bool × e.Kernel → Action e.Kernel IoContext
  after_ctl ep fd this (false, k) _ = (throw (socket_exception (e.errno k)), k)
  after_ctl ep fd this (true, k) _ = (
    ok (record {
      run = false;
      epollfd = ep;
      exec_handler = this;
      exec_fd = fd;
      pending_callbacks_ = [];
    }),
    k,
  )

  -- The constructor of `exec_event_handler`, on the eventfd.
  register_exec : Fd → ℕ → Fd × e.Kernel → Action e.Kernel IoContext
  register_exec ep this (none, k) _ = (throw (socket_exception (e.errno k)), k)
  register_exec ep this (some fd, k) _ =
      after_ctl ep (some fd) this
        (e.epoll_ctl ep ctl_add (some fd) (record { events = epollin; ptr = this }) k) k

  -- The constructor of `io_context_pimpl`, whose members are made in the order of their declarations, and
  -- then its body.
  pub create : ℕ → Action e.Kernel IoContext
  create this k =
      let (ep, k') = e.epoll_create1 k in
      (register_exec ep this (e.eventfd k') >>= λ io k''. elim ep [
        | none ↦ (throw (socket_exception (e.errno k'')), k'')
        | some _ ↦ (ok io, k'')
      ])
        k'

  after_trigger : Bool × e.Kernel → Action (Loop e) (Unit {0})
  after_trigger (true, k) m = (ok tt, record m { kernel = k })
  after_trigger (false, k) m = (throw (socket_exception (e.errno k)), record m { kernel = k })

  pub trigger : Action (Loop e) (Unit {0})
  trigger m =
      let m' : Loop e = record m { cont = suc m.cont } in
      after_trigger (e.write_u64 m'.io.exec_fd m'.cont m'.kernel) m'

  pub push : ℕ → Loop e → Loop e
  push f m = record m {
    io = record (m.io) { pending_callbacks_ = m.io.pending_callbacks_ ++ f ∷ [] };
  }

  pub exec : ℕ → Action (Loop e) (Unit {0})
  exec f m = trigger (push f m)

  pub stop : Loop e → Loop e
  stop m = record m { io = record (m.io) { run = false } }

  do_one : Do → Action (Loop e) (Unit {0})
  do_one (do_exec f) = exec f
  do_one do_stop = λ m. (ok tt, stop m)

  do_all : List Do → Action (Loop e) (Unit {0})
  do_all [] m = (ok tt, m)
  do_all (d ∷ ds) m = (do_one d >>= λ _. do_all ds) m

  -- A callback runs; what it does is on record before it begins.
  call : ℕ → Action (Loop e) (Unit {0})
  call f m = do_all (e.calls f) (record m { ran = m.ran ++ f ∷ [] })

  -- The callbacks that were taken from the queue, from the front.
  pub call_all : List ℕ → Action (Loop e) (Unit {0})
  call_all [] m = (ok tt, m)
  call_all (f ∷ fs) m = (call f >>= λ _. call_all fs) m

  pub handle_exec : Action (Loop e) (Unit {0})
  handle_exec m =
      call_all m.io.pending_callbacks_ (record m { io = record (m.io) { pending_callbacks_ = [] } })

  other_event : List Do × e.Kernel → Action (Loop e) (Unit {0})
  other_event (ds, k) m = do_all ds (record m { kernel = k })

  pub dispatch : EpollEvent → Action (Loop e) (Unit {0})
  dispatch ev m =
      if ev.ptr == m.io.exec_handler
      then handle_exec m
      else other_event (e.other_handler ev m.kernel) m

  pub dispatch_all : List EpollEvent → Action (Loop e) (Unit {0})
  dispatch_all [] m = (ok tt, m)
  dispatch_all (ev ∷ evs) m = (dispatch ev >>= λ _. dispatch_all evs) m

  round : Option (List EpollEvent) × e.Kernel → Action (Loop e) (Unit {0})
  round (none, k) m = (throw (socket_exception (e.errno k)), record m { kernel = k })
  round (some evs, k) m = dispatch_all evs (record m { kernel = k })

  pub loop : ℕ → Action (Loop e) (Unit {0})
  loop zero m = (out_of_fuel, m)
  loop (suc fuel) m =
      let rest = (round (e.epoll_wait m.io.epollfd max_events m.kernel) >>= λ _. loop fuel) m in
      if m.io.run then rest else (ok tt, m)

  pub wait_for_input : ℕ → Action (Loop e) (Unit {0})
  wait_for_input fuel m = loop fuel (record m { io = record (m.io) { run = true } })
