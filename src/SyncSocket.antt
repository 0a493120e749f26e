-- ===== src/SyncSocket.antt =====
-- src/linux/socket_base.cpp and include/acpp-network/socket.inl: the `sync` sockets. Each object holds one
-- descriptor, which moves hand on; the objects are a store, since a move changes two of them.
pub mod Store
pub mod Ownership
use acpp_network.Prelude.{
  ℕ, Bool, true, false, List, [], ◌∷◌, Option, none, some, ◌==◌, if◌then◌else◌, ℤ, pos, negsuc,
  length, to_size,
}
use acpp_network.Posix.{Fd, invalid_fd, Posix, Sockaddr, sizeof_sockaddr}

-- The `fd_` of every object, by the object's address.
pub record Objects (K : Type 0) : Type 0 where
  pub fd_ : ℕ → Fd
  pub kernel : K

abbrev pub set : ℕ → Fd → (ℕ → Fd) → ℕ → Fd
set a fd s b = if a == b then fd else s b

abbrev pub is_valid : Fd → Bool
is_valid none = false
is_valid (some f) = true

-- SOCK_STREAM and SOCK_DGRAM.
abbrev pub sock_stream : ℕ
sock_stream = 1

abbrev pub sock_dgram : ℕ
sock_dgram = 2

-- The `int` of a system call that gives 0 or -1.
abbrev pub int_of : Bool → ℤ
int_of true = pos 0
int_of false = negsuc 0

-- The `size_t` of a system call that gives a length or -1.
abbrev pub size_of : Option ℕ → ℕ
size_of none = to_size (negsuc 0)
size_of (some n) = n

module _ (p : Posix) where
  -- The default constructor.
  unfoldable pub construct : ℕ → Objects p.Kernel → Objects p.Kernel
  construct a o = record o { fd_ = set a invalid_fd o.fd_ }

  unfoldable pub of_fd : ℕ → Fd → Objects p.Kernel → Objects p.Kernel
  of_fd a fd o = record o { fd_ = set a fd o.fd_ }

  unfoldable pub move_construct : ℕ → ℕ → Objects p.Kernel → Objects p.Kernel
  move_construct a other o = record o { fd_ = set other invalid_fd (set a (o.fd_ other) o.fd_) }

  unfoldable pub move_assign : ℕ → ℕ → Objects p.Kernel → Objects p.Kernel
  move_assign a other o = if a == other then o else (record {
    fd_ = set other invalid_fd (set a (o.fd_ other) o.fd_);
    kernel = p.close (o.fd_ a) o.kernel;
  })

  -- The destructor does the same.
  unfoldable pub close : ℕ → Objects p.Kernel → Objects p.Kernel
  close a o =
      if is_valid (o.fd_ a)
      then record { fd_ = set a invalid_fd o.fd_; kernel = p.close (o.fd_ a) o.kernel }
      else o

  unfoldable pub create_impl : ℕ → ℕ → ℕ → ℕ → Objects p.Kernel → Objects p.Kernel
  create_impl a domain type protocol o =
      let o' = close a o in
      let (fd, k) = p.socket domain type protocol o'.kernel in
      record { fd_ = set a fd o'.fd_; kernel = k }

  pub connect : ℕ → Sockaddr → Objects p.Kernel → Bool × Objects p.Kernel
  connect a adr o =
      let (r, k) = p.connect (o.fd_ a) adr sizeof_sockaddr o.kernel in (r, record o { kernel = k })

  -- A socket is made if there is none.
  pub ensure : ℕ → ℕ → ℕ → ℕ → Objects p.Kernel → Objects p.Kernel
  ensure a domain type protocol o =
      if is_valid (o.fd_ a) then o else create_impl a domain type protocol o

  pub stream_connect : ℕ → ℕ → Sockaddr → Objects p.Kernel → Bool × Objects p.Kernel
  stream_connect a protocol adr o =
      connect a adr (create_impl a adr.sa_family sock_stream protocol o)

  pub send : ℕ → List ℕ → Objects p.Kernel → ℕ × Objects p.Kernel
  send a bytes o =
      let (r, k) = p.send (o.fd_ a) bytes o.kernel in (size_of r, record o { kernel = k })

  -- The length, and the bytes that are in the buffer.
  received : Option (List ℕ) → ℕ × List ℕ
  received none = (to_size (negsuc 0), [])
  received (some bytes) = (length bytes, bytes)

  pub receive : ℕ → ℕ → Objects p.Kernel → (ℕ × List ℕ) × Objects p.Kernel
  receive a len o =
      let (r, k) = p.recv (o.fd_ a) len o.kernel in (received r, record o { kernel = k })

  bind_at : ℕ → Sockaddr → Objects p.Kernel → ℤ × Objects p.Kernel
  bind_at a ad o =
      let (r, k) = p.bind (o.fd_ a) ad sizeof_sockaddr o.kernel in
      (int_of r, record o { kernel = k })

  pub stream_bind : ℕ → Sockaddr → Objects p.Kernel → ℤ × Objects p.Kernel
  stream_bind a ad o = bind_at a ad (ensure a ad.sa_family sock_stream 0 o)

  pub listen : ℕ → ℕ → Objects p.Kernel → ℤ × Objects p.Kernel
  listen a backlog o =
      let (r, k) = p.listen (o.fd_ a) backlog o.kernel in
      if is_valid (o.fd_ a) then (int_of r, record o { kernel = k }) else (negsuc 0, o)

  -- The object `c` is the result.
  pub accept : ℕ → ℕ → Objects p.Kernel → Objects p.Kernel
  accept c a o =
      let (fd, k) = p.accept (o.fd_ a) o.kernel in
      if is_valid (o.fd_ a) then of_fd c fd (record o { kernel = k }) else construct c o

  pub send_to : ℕ → Sockaddr → List ℕ → Objects p.Kernel → ℕ × Objects p.Kernel
  send_to a addr bytes o =
      let o' = ensure a addr.sa_family sock_dgram 0 o in
      let (r, k) = p.sendto (o'.fd_ a) bytes addr sizeof_sockaddr o'.kernel in
      (size_of r, record o' { kernel = k })

  -- `from` is `from_sockaddr` to the address type of the socket, which throws where it gives none.
  sender :
      {Address : Type 0}
      → (Sockaddr → Option Address)
      → Address
      → Option (List ℕ × Sockaddr)
      → ℕ × List ℕ × Address
  sender from addr none = (0, [], addr)
  sender from addr (some (bytes, sa)) = elim (from sa) [
    | none ↦ (0, bytes, addr)
    | some x ↦ (length bytes, bytes, x)
  ]

  -- The result, the buffer, and the address that is written.
  pub recv_from :
      {Address : Type 0}
      → (Sockaddr → Option Address)
      → (Address → ℕ)
      → ℕ
      → Address
      → ℕ
      → Objects p.Kernel
      → (ℕ × List ℕ × Address) × Objects p.Kernel
  recv_from from get_family a addr len o =
      let o' = ensure a (get_family addr) sock_dgram 0 o in
      let (r, k) = p.recvfrom (o'.fd_ a) len sizeof_sockaddr o'.kernel in
      (sender from addr r, record o' { kernel = k })

  pub datagram_bind : ℕ → ℕ → Sockaddr → Objects p.Kernel → ℤ × Objects p.Kernel
  datagram_bind a protocol ad o = bind_at a ad (ensure a ad.sa_family sock_dgram protocol o)
