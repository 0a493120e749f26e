-- ===== src/AsyncSocket/Closing.antt =====
-- What an `async_socket_base` closes, it closes once.
use acpp_network.Prelude.{ℕ, ◌≡◌, refl, ap, ◌∙◌, false, Option, none, some}
use acpp_network.LinuxSocket.{Env, SocketBasePimpl}
use acpp_network.Posix.{Fd}
use acpp_network.AsyncSocket.Put.{put-same}
use acpp_network.AsyncSocket.{
  close_fd, Owners, put, close_pimpl, close, valid_pimpl, valid, destroy,
}

module _ (e : Env) where
  closed_fd :
      (fd : Fd) (s : SocketBasePimpl) (k k' : e.Kernel)
      → (valid_pimpl e (close_fd e fd s k).0 ≡ false)
        × (close_pimpl e (close_fd e fd s k).0 k' ≡ ((close_fd e fd s k).0, k'))
  unfolding close_fd close_pimpl valid_pimpl
  closed_fd none s k k' = (refl, refl)
  closed_fd (some f) s k k' = (refl, refl)

  closed_once :
      (x : Option SocketBasePimpl) (k k' : e.Kernel)
      → (valid_pimpl e (close_pimpl e x k).0 ≡ false)
        × (close_pimpl e (close_pimpl e x k).0 k' ≡ ((close_pimpl e x k).0, k'))
  unfolding close_pimpl valid_pimpl
  closed_once none k k' = (refl, refl)
  closed_once (some s) k k' = closed_fd s.fd_ s k k'

  -- After `close` a socket is not valid, and a second `close`, or the destructor, leaves the system alone, so
  -- the descriptor is closed once.
  pub close-close :
      (a : ℕ) (o : Owners e)
      → (valid e a (close e a o) ≡ false)
        × ((close e a (close e a o)).kernel ≡ (close e a o).kernel)
        × ((destroy e a (close e a o)).kernel ≡ (close e a o).kernel)
  unfolding close valid destroy
  close-close a o =
      let x = (close_pimpl e (o.pimpl_ a) o.kernel).0 in
      let k = (close_pimpl e (o.pimpl_ a) o.kernel).1 in
      let once = closed_once (o.pimpl_ a) o.kernel k in
      let there = put-same a x o.pimpl_ in
      let second : (close_pimpl e (put a x o.pimpl_ a) k).1 ≡ k =
        ap (λ y. (close_pimpl e y k).1) there
        ∙ ap (λ (y : Option SocketBasePimpl × e.Kernel). y.1) once.1 in
      (ap (valid_pimpl e) there ∙ once.0, second, second)
