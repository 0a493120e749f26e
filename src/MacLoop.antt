-- ===== src/MacLoop.antt =====
-- src/macos/socket_base.cpp: `io_context` on a kqueue, with the queue of `exec`, the timers and the loop.
pub mod Sparing
pub mod Batch
pub mod Stale
use acpp_network.Prelude.{
  ℕ, zero, suc, Bool, true, false, List, [], ◌∷◌, ◌++◌, Option, none, some, Result, Action, ◌>>=◌,
  ok, throw, out_of_fuel, fault, socket_exception, ◌==◌, if◌then◌else◌,
}
use acpp_network.Posix.{Fd}
use acpp_network.MacSocket.{Kqueue, user_clear, user_trigger, timer_oneshot, timer_delete}

-- What a callback does to the loop and to its timers, which are named by the addresses of their `timer_impl`.
pub data Do : Type 0 where
  do_exec do_cancel do_destroy : ℕ → Do
  do_stop : Do
  do_timer : ℕ → ℕ → Option ℕ → Do

-- What kevent(2) gives: an event of a socket, by `udata`; of the queue; or of a timer, by `ident`.
pub data Event : Type 0 where
  socket_event timer_event : ℕ → Event
  user_event : Event

-- The queue has its front at the head; a function is named by a number.
pub record IoContext : Type 0 where
  pub run_ : Bool
  pub kq_ : Fd
  pub pending_callbacks_ : List ℕ

-- A function that is not set is `none`.
pub record TimerImpl : Type 0 where
  pub milliseconds_ : ℕ
  pub cb_ : Option ℕ

-- The system; what each function does; what a socket's event makes the callbacks of the socket do.
pub record Env : Type 1 where
  pub mac : Kqueue
  pub open mac use *
  pub kevent_wait : Fd → ℕ → Kernel → Option (List Event) × Kernel
  pub calls : ℕ → List Do
  pub socket_handler : ℕ → Kernel → List Do × Kernel

-- `timers` are the objects that have not been destroyed; `ran` the functions that have been called.
pub record Loop (e : Env) : Type 0 where
  pub io : IoContext
  pub kernel : e.Kernel
  pub timers : ℕ → Option TimerImpl
  pub ran : List ℕ

abbrev pub max_events : ℕ
max_events = 5

abbrev pub set_timer : ℕ → Option TimerImpl → (ℕ → Option TimerImpl) → ℕ → Option TimerImpl
set_timer a x timers b = if a == b then x else timers b

module _ (e : Env) where
  -- The constructor of `io_context_pimpl`; the result of the registration is not looked at.
  with_kqueue : Fd × e.Kernel → Action e.Kernel IoContext
  with_kqueue (none, k) _ = (throw (socket_exception (e.errno k)), k)
  with_kqueue (some f, k) _ = (
    ok (record { run_ = false; kq_ = some f; pending_callbacks_ = [] }),
    (e.kevent (some f) user_clear k).1,
  )

  pub create : Action e.Kernel IoContext
  create k = with_kqueue (e.kqueue k) k

  abbrev pub push : ℕ → Loop e → Loop e
  push f m = record m {
    io = record (m.io) { pending_callbacks_ = m.io.pending_callbacks_ ++ f ∷ [] };
  }

  unfoldable pub exec : ℕ → Loop e → Loop e
  exec f m =
      let m' = push f m in record m' { kernel = (e.kevent m'.io.kq_ user_trigger m'.kernel).1 }

  unfoldable pub stop : Loop e → Loop e
  stop m = record m { io = record (m.io) { run_ = false } }

  -- The constructor of `timer_impl`, at the address `a`.
  unfoldable pub create_timer : ℕ → ℕ → Option ℕ → Loop e → Loop e
  create_timer a milliseconds cb m = record m {
    kernel = (e.kevent m.io.kq_ (timer_oneshot a milliseconds) m.kernel).1;
    timers = set_timer a (some (record { milliseconds_ = milliseconds; cb_ = cb })) m.timers;
  }

  unfoldable pub delete_timer : ℕ → Loop e → Loop e
  delete_timer a m = record m { kernel = (e.kevent m.io.kq_ (timer_delete a) m.kernel).1 }

  unfoldable pub cancel : ℕ → Option TimerImpl → Action (Loop e) (Unit {0})
  cancel a none m = (throw fault, m)
  cancel a (some t) m = (ok tt, delete_timer a m)

  -- The destructor of `timer`, which may own no `timer_impl`.
  unfoldable pub destroy : ℕ → Option TimerImpl → Loop e → Loop e
  destroy a none m = m
  destroy a (some t) m =
      let m' = delete_timer a m in record m' { timers = set_timer a none m'.timers }

  unfoldable pub do_one : Do → Action (Loop e) (Unit {0})
  do_one (do_exec f) m = (ok tt, exec f m)
  do_one do_stop m = (ok tt, stop m)
  do_one (do_timer a milliseconds cb) m = (ok tt, create_timer a milliseconds cb m)
  do_one (do_cancel a) m = cancel a (m.timers a) m
  do_one (do_destroy a) m = (ok tt, destroy a (m.timers a) m)

  unfoldable pub do_all : List Do → Action (Loop e) (Unit {0})
  do_all [] m = (ok tt, m)
  do_all (d ∷ ds) m = (do_one d >>= λ _. do_all ds) m

  unfoldable pub call : ℕ → Action (Loop e) (Unit {0})
  call f m = do_all (e.calls f) (record m { ran = m.ran ++ f ∷ [] })

  unfoldable pub call_all : List ℕ → Action (Loop e) (Unit {0})
  call_all [] m = (ok tt, m)
  call_all (f ∷ fs) m = (call f >>= λ _. call_all fs) m

  -- EVFILT_USER: the queue is taken, and then called.
  unfoldable pub handle_user : Action (Loop e) (Unit {0})
  handle_user m =
      call_all m.io.pending_callbacks_ (record m { io = record (m.io) { pending_callbacks_ = [] } })

  unfoldable pub call_timer : Option ℕ → Action (Loop e) (Unit {0})
  call_timer none m = (ok tt, m)
  call_timer (some f) m = call f m

  -- EVFILT_TIMER: `ident` is used as the address of a timer, which may be gone.
  unfoldable pub handle_timer : Option TimerImpl → Action (Loop e) (Unit {0})
  handle_timer none m = (throw fault, m)
  handle_timer (some t) m = call_timer t.cb_ m

  unfoldable pub handle_socket : List Do × e.Kernel → Action (Loop e) (Unit {0})
  handle_socket (ds, k) m = do_all ds (record m { kernel = k })

  unfoldable pub dispatch : Event → Action (Loop e) (Unit {0})
  dispatch (socket_event s) m = handle_socket (e.socket_handler s m.kernel) m
  dispatch user_event m = handle_user m
  dispatch (timer_event a) m = handle_timer (m.timers a) m

  unfoldable pub dispatch_all : List Event → Action (Loop e) (Unit {0})
  dispatch_all [] m = (ok tt, m)
  dispatch_all (ev ∷ evs) m = (dispatch ev >>= λ _. dispatch_all evs) m

  round : Option (List Event) × e.Kernel → Action (Loop e) (Unit {0})
  round (none, k) m = (throw (socket_exception (e.errno k)), record m { kernel = k })
  round (some evs, k) m = dispatch_all evs (record m { kernel = k })

  pub loop : ℕ → Action (Loop e) (Unit {0})
  loop zero m = (out_of_fuel, m)
  loop (suc fuel) m =
      let rest = (round (e.kevent_wait m.io.kq_ max_events m.kernel) >>= λ _. loop fuel) m in
      if m.io.run_ then rest else (ok tt, m)

  pub wait_for_input : ℕ → Action (Loop e) (Unit {0})
  wait_for_input fuel m = loop fuel (record m { io = record (m.io) { run_ = true } })
