-- ===== src/WindowsSocket/Operations.antt =====
-- src/windows/socket_base.cpp: the methods of `socket_base_pimpl` and of `async_socket_base`, each on the
-- socket of a key.
use acpp_network.Prelude.{
  ℕ, Bool, true, false, not, ◌||◌, List, [], ◌∷◌, Option, none, some, min, Action, ◌>>=◌, ok, throw,
  fault, socket_exception, ◌==◌, if◌then◌else◌, length, take, ℤ, pos, negsuc,
}
use acpp_network.Posix.{Fd, Sockaddr, sizeof_sockaddr}
use acpp_network.SocketTypes.{SocketCallbacks, no_callbacks}
use acpp_network.WindowsSocket.{Env, Machine, SocketBasePimpl, put, io_pending, operation_buffer}

-- A socket with no operation under way.
abbrev pub fresh : ℕ → ℕ → ℕ → Fd → SocketCallbacks → SocketBasePimpl
fresh domain type protocol fd callbacks = record {
  fd_ = fd;
  callbacks_ = callbacks;
  domain_ = domain;
  type_ = type;
  protocol_ = protocol;
  write_in_use = false;
  write_buffer = [];
  new_socket = none;
}

abbrev pub valid : SocketBasePimpl → Bool
valid s = elim s.fd_ [ none ↦ false | some f ↦ true ]

module _ (e : Env) where
  abbrev pub M : Type 0 → Type 0
  M A = Action (Machine e.winsock) A

  abbrev pub with_kernel : e.Kernel → Machine e.winsock → Machine e.winsock
  with_kernel k m = record m { kernel = k }

  abbrev pub with_socket : ℕ → SocketBasePimpl → Machine e.winsock → Machine e.winsock
  with_socket a s m = record m { sockets = put a (some s) m.sockets }

  -- An access to the socket of a key, which may be gone.
  abbrev pub on_socket : {A : Type 0} → Option SocketBasePimpl → (SocketBasePimpl → M A) → M A
  on_socket none f m = (throw fault, m)
  on_socket (some s) f m = f s m

  -- An overlapped call: a failure that is not a pending operation is thrown.
  unfoldable pub overlapped : Bool × e.Kernel → M (Unit {0})
  overlapped (r, k) m =
      if r || (e.last_error k == io_pending)
      then (ok tt, with_kernel k m)
      else (throw (socket_exception (e.last_error k)), with_kernel k m)

  -- The constructor from a descriptor, and io_context::add_socket.
  unfoldable pub of_fd :
      ℕ → ℕ → ℕ → ℕ → Fd → SocketCallbacks → Machine e.winsock → Machine e.winsock
  of_fd a domain type protocol fd callbacks m = record m {
    sockets = put a (some (fresh domain type protocol fd callbacks)) m.sockets;
    kernel = e.associate fd m.port a m.kernel;
  }

  -- The constructor that makes the socket; `a` is the address of the new `socket_base_pimpl`.
  unfoldable pub create : ℕ → ℕ → ℕ → ℕ → SocketCallbacks → Machine e.winsock → Machine e.winsock
  unfolding of_fd
  create a domain type protocol callbacks m =
      let (fd, k) = e.wsa_socket domain type protocol m.kernel in
      of_fd a domain type protocol fd callbacks (with_kernel k m)

  close_socket : ℕ → Option SocketBasePimpl → Machine e.winsock → Machine e.winsock
  close_socket a none m = m
  close_socket a (some s) m =
      if valid s
      then record m {
        sockets = put a (some (record s { fd_ = none })) m.sockets;
        kernel = e.closesocket s.fd_ (e.shutdown s.fd_ m.kernel);
      }
      else m

  pub close : ℕ → Machine e.winsock → Machine e.winsock
  close a m = close_socket a (m.sockets a) m

  release : ℕ → Machine e.winsock → Machine e.winsock
  release a m = let m' = close a m in record m' { sockets = put a none m'.sockets }

  -- The socket that was made for the connection to come is destroyed; it has none of its own.
  replace_new : Option ℕ → Machine e.winsock → Machine e.winsock
  replace_new none m = m
  replace_new (some b) m = release b m

  drop_new : Option SocketBasePimpl → Machine e.winsock → Machine e.winsock
  drop_new none m = m
  drop_new (some s) m = replace_new s.new_socket m

  -- The destructor of `async_socket_base` and of what it owns.
  pub destroy : ℕ → Machine e.winsock → Machine e.winsock
  destroy a m = drop_new (m.sockets a) (release a m)

  unfoldable pub read_on : ℕ → SocketBasePimpl → M (Unit {0})
  unfolding overlapped
  read_on a s m = overlapped (e.wsa_recv s.fd_ a operation_buffer m.kernel) m

  unfoldable pub start_read : ℕ → M (Unit {0})
  unfolding read_on
  start_read a m = on_socket (m.sockets a) (read_on a) m

  -- The bytes are copied to the buffer of the operation, which is in use from here on.
  unfoldable pub internal_write : ℕ → SocketBasePimpl → List ℕ → M ℕ
  unfolding overlapped
  internal_write a s bytes m =
      let l = min operation_buffer (length bytes) in
      let s' : SocketBasePimpl = record s { write_in_use = true; write_buffer = take l bytes } in
      (overlapped (e.wsa_send s.fd_ a (take l bytes) m.kernel) >>= λ _ m'. (ok l, m'))
        (with_socket a s' m)

  unfoldable pub write_on : ℕ → List ℕ → SocketBasePimpl → M ℕ
  unfolding internal_write
  write_on a bytes s m = if s.write_in_use then (ok 0, m) else internal_write a s bytes m

  unfoldable pub write : ℕ → List ℕ → M ℕ
  unfolding write_on
  write a bytes m = on_socket (m.sockets a) (write_on a bytes) m

  -- The socket of the connection to come is made, in place of the one before it.
  post_accept : ℕ → SocketBasePimpl → Option Bool × e.Kernel → M ℤ
  post_accept a s (none, k) m = (throw (socket_exception (e.last_error k)), with_kernel k m)
  post_accept a s (some false, k) m = (ok (pos 0), with_kernel k m)
  post_accept a s (some true, k) m =
      let b = e.alloc (with_kernel k m) in
      let m₁ = create b s.domain_ s.type_ s.protocol_ no_callbacks (with_kernel k m) in
      let m₂ = with_socket a (record s { new_socket = some b }) (replace_new s.new_socket m₁) in
      (on_socket (m₂.sockets b) (λ n. overlapped (e.accept_ex s.fd_ a n.fd_ m₂.kernel)) >>= λ _ m₃.
      (ok (pos 0), m₃))
        m₂

  pub start_accept : ℕ → SocketBasePimpl → M ℤ
  start_accept a s m = post_accept a s (e.find_accept_ex s.fd_ m.kernel) m

  listen_on : ℕ → ℕ → SocketBasePimpl → M ℤ
  listen_on a backlog s m =
      let (r, k) = e.listen s.fd_ backlog m.kernel in
      if r then start_accept a s (with_kernel k m) else (ok (negsuc 0), with_kernel k m)

  pub listen : ℕ → ℕ → M ℤ
  listen a backlog m = on_socket (m.sockets a) (listen_on a backlog) m

  -- The result of ::bind is an `int`, which is 0 on success and becomes a `bool`.
  bind_on : Sockaddr → SocketBasePimpl → M Bool
  bind_on addr s m =
      let (r, k) = e.bind s.fd_ addr sizeof_sockaddr m.kernel in (ok (not r), with_kernel k m)

  pub bind : ℕ → Sockaddr → M Bool
  bind a addr m = on_socket (m.sockets a) (bind_on addr) m

  -- INADDR_ANY with a port that the system chooses.
  abbrev any_address : Sockaddr
  any_address = record {
    sa_family = 2;
    sa_data = 0 ∷ 0 ∷ 0 ∷ 0 ∷ 0 ∷ 0 ∷ 0 ∷ 0 ∷ 0 ∷ 0 ∷ 0 ∷ 0 ∷ 0 ∷ 0 ∷ [];
  }

  post_connect : ℕ → Sockaddr → SocketBasePimpl → Option Bool × e.Kernel → M Bool
  post_connect a addr s (none, k) m = (throw (socket_exception (e.last_error k)), with_kernel k m)
  post_connect a addr s (some false, k) m =
      (throw (socket_exception (e.last_error k)), with_kernel k m)
  post_connect a addr s (some true, k) m =
      (overlapped (e.connect_ex s.fd_ a addr sizeof_sockaddr k) >>= λ _ m'. (ok false, m')) m

  connect_on : ℕ → Sockaddr → SocketBasePimpl → M Bool
  connect_on a addr s m =
      let (_, k) = e.bind s.fd_ any_address sizeof_sockaddr m.kernel in
      post_connect a addr s (e.find_connect_ex s.fd_ k) m

  pub connect : ℕ → Sockaddr → M Bool
  connect a addr m = on_socket (m.sockets a) (connect_on a addr) m
