-- ===== src/EventLoop/Timers.antt =====
-- src/linux/socket_base.cpp: `timer_impl`, a timerfd that is registered once.
pub mod Owners
use Prim.Native.Nat.{bit_or, bit_and}
use acpp_network.Prelude.{
  ℕ, ◌+◌, ◌*◌, ◌/◌, ◌%◌, ◌<◌, ◌≡◌, Bool, true, false, none, some, Action, ok, throw, Result,
  socket_exception, ◌==◌, if◌then◌else◌, arith,
}
use acpp_network.Posix.{Fd, Linux, ctl_add, ctl_mod, epollin, epolloneshot, ITimerSpec}

-- `this` is the address of the object.
pub record TimerImpl : Type 0 where
  pub this : ℕ
  pub timer_fd_ : Fd
  pub milliseconds_ : ℕ
  pub callback_ : Bool
  pub events_set_ : Bool

-- `fired` counts the calls of the callback.
pub record Machine (l : Linux) : Type 0 where
  pub timer : TimerImpl
  pub kernel : l.Kernel
  pub fired : ℕ

-- The time of a timer of that many milliseconds: once, with no repetition.
unfoldable pub timer_spec : ℕ → ITimerSpec
timer_spec milliseconds = record {
  value_sec = milliseconds / 1000;
  value_nsec = milliseconds % 1000 * 1000 * 1000;
  interval_sec = 0;
  interval_nsec = 0;
}

module _ (l : Linux) (epollfd : Fd) where
  pub set_events_once : ℕ → Machine l → Machine l
  set_events_once events m =
      let (r, k) =
        l.epoll_ctl epollfd (if m.timer.events_set_ then ctl_mod else ctl_add) m.timer.timer_fd_
          (record { events = bit_or events epolloneshot; ptr = m.timer.this }) m.kernel in
      record m { timer = record (m.timer) { events_set_ = true }; kernel = k }

  after_settime : Bool × l.Kernel → Action (Machine l) (Unit {0})
  after_settime (true, k) m = (ok tt, set_events_once epollin (record m { kernel = k }))
  after_settime (false, k) m = (throw (socket_exception (l.errno k)), record m { kernel = k })

  start : Fd × l.Kernel → Action (Machine l) (Unit {0})
  start (none, k) m = (throw (socket_exception (l.errno k)), record m { kernel = k })
  start (some fd, k) m =
      let m' : Machine l = record m {
        timer = record (m.timer) { timer_fd_ = some fd };
        kernel = k;
      } in
      after_settime (l.timerfd_settime (some fd) (timer_spec m'.timer.milliseconds_) k) m'

  -- The constructor.
  pub create : ℕ → ℕ → Bool → l.Kernel → Result (Unit {0}) × Machine l
  create this milliseconds callback k = start (l.timerfd_create k) (record {
    timer = record {
      this = this;
      timer_fd_ = none;
      milliseconds_ = milliseconds;
      callback_ = callback;
      events_set_ = false;
    };
    kernel = k;
    fired = 0;
  })

  -- The destructor does the same: the descriptor stays in the object.
  pub cancel : Machine l → Machine l
  cancel m = elim m.timer.timer_fd_ [
    | none ↦ m
    | some fd ↦ record m { kernel = l.close (some fd) m.kernel }
  ]

  pub handle_event : ℕ → Machine l → Machine l
  handle_event events m =
      if bit_and events epollin == 0
      then m
      else if m.timer.callback_
      then record m { fired = m.fired + 1 }
      else m

-- The time that the system is given is that number of milliseconds exactly, with fewer nanoseconds than
-- a second has, as the system asks, and the timer does not repeat.
pub timer_spec-exact :
    (milliseconds : ℕ)
    → ((timer_spec milliseconds).value_sec * 1000000000 + (timer_spec milliseconds).value_nsec
        ≡ milliseconds * 1000000)
      × ((timer_spec milliseconds).value_nsec < 1000000000)
      × ((timer_spec milliseconds).interval_sec ≡ 0)
      × ((timer_spec milliseconds).interval_nsec ≡ 0)
unfolding timer_spec
timer_spec-exact milliseconds = (omega arith, omega arith, omega arith, omega arith)
