-- ===== src/EventLoop/Timers/Owners.antt =====
-- src/linux/socket_base.cpp: `timer`, the owner of a `timer_impl`. The objects are a store, since a move changes two
-- of them.
use acpp_network.Prelude.{
  ℕ, ◌≡◌, ap, ◌∙◌, Bool, Option, none, some, Result, Action, ok, throw, out_of_fuel, fault,
}
use acpp_network.Posix.{Fd, Linux}
use acpp_network.AsyncSocket.{put}
use acpp_network.EventLoop.Timers.{TimerImpl, Machine, create, cancel}

-- The `pimpl_` of every timer, by its address.
pub record Owners (l : Linux) : Type 0 where
  pub pimpl_ : ℕ → Option TimerImpl
  pub kernel : l.Kernel

module _ (l : Linux) (epollfd : Fd) where
  -- Where the constructor of `timer_impl` throws, its destructor does not run.
  constructed : ℕ → Owners l → Result (Unit {0}) × Machine l → Result (Unit {0}) × Owners l
  constructed t o (ok u, m) =
      (ok u, record { pimpl_ = put t (some m.timer) o.pimpl_; kernel = m.kernel })
  constructed t o (throw x, m) = (throw x, record o { kernel = m.kernel })
  constructed t o (out_of_fuel, m) = (out_of_fuel, record o { kernel = m.kernel })

  -- The address of the new `timer_impl` is `this`.
  pub construct : ℕ → ℕ → ℕ → Bool → Action (Owners l) (Unit {0})
  construct t this milliseconds callback o =
      constructed t o (create l epollfd this milliseconds callback o.kernel)

  pub move_construct : ℕ → ℕ → Owners l → Owners l
  move_construct t other o = record o { pimpl_ = put other none (put t (o.pimpl_ other) o.pimpl_) }

  -- `cancel` of the implementation, from the kernel that it gets to the one that it leaves.
  cancelled : TimerImpl → l.Kernel → l.Kernel
  cancelled i k = (cancel l epollfd (record { timer = i; kernel = k; fired = 0 })).kernel

  cancel_at : Option TimerImpl → Action (Owners l) (Unit {0})
  cancel_at none o = (throw fault, o)
  cancel_at (some i) o = (ok tt, record o { kernel = cancelled i o.kernel })

  pub cancel_timer : ℕ → Action (Owners l) (Unit {0})
  cancel_timer t o = cancel_at (o.pimpl_ t) o

  destroy_at : Option TimerImpl → Owners l → Owners l
  destroy_at none o = o
  destroy_at (some i) o = record o { kernel = cancelled i o.kernel }

  -- The destructor, which destroys the implementation.
  pub destroy : ℕ → Owners l → Owners l
  destroy t o = record (destroy_at (o.pimpl_ t) o) {
    pimpl_ = put t none (destroy_at (o.pimpl_ t) o).pimpl_;
  }

  cancelled-closes :
      (i : TimerImpl) (fd : ℕ) (k : l.Kernel)
      → i.timer_fd_ ≡ some fd
      → cancelled i k ≡ l.close (some fd) k
  unfolding cancelled cancel
  cancelled-closes i fd k h =
      ap
        (λ (f : Fd).
          (elim f as (λ _. Machine l) [
            | none ↦ record { timer = i; kernel = k; fired = 0 }
            | some g ↦ record { timer = i; kernel = l.close (some g) k; fired = 0 }
          ]).kernel)
        h

  -- A timer that is cancelled closes its descriptor then, and closes it again when it is destroyed, when the
  -- system may have given it to another.
  pub destroy-twice :
      (t : ℕ) (i : TimerImpl) (fd : ℕ) (o : Owners l)
      → o.pimpl_ t ≡ some i
      → i.timer_fd_ ≡ some fd
      → (destroy t (cancel_timer t o).1).kernel ≡ l.close (some fd) (l.close (some fd) o.kernel)
  unfolding destroy destroy_at cancel_timer cancel_at
  destroy-twice t i fd o held open_fd =
      let c : Owners l = record o { kernel = cancelled i o.kernel } in
      ap (λ x. (destroy t (cancel_at x o).1).kernel) held
      ∙ ap (λ x. (destroy_at x c).kernel) held
      ∙ cancelled-closes i fd (cancelled i o.kernel) open_fd
      ∙ ap (l.close (some fd)) (cancelled-closes i fd o.kernel open_fd)
