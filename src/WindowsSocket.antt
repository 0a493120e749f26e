-- ===== src/WindowsSocket.antt =====
-- src/windows/socket_base.cpp: the asynchronous sockets of a completion port. Winsock is a parameter.
-- The sockets are a store, by the address of the `socket_base_pimpl`, since a completion names its
-- socket by that address. The methods are in Operations, the loop in Port.
pub mod Operations
pub mod Port
pub mod Writes
pub mod Stuck
pub mod Accepts
use acpp_network.Prelude.{ℕ, ◌*◌, Bool, List, Option, none, ◌==◌, if◌then◌else◌}
use acpp_network.Posix.{Fd, Sockaddr}
use acpp_network.SocketTypes.{SocketCallbacks}

-- `none` stands for INVALID_SOCKET and INVALID_HANDLE_VALUE, and `false` for a failure whose code is
-- `last_error`. An overlapped call names the socket whose operation it is given.
pub record Winsock : Type 1 where
  pub Kernel : Type 0
  pub last_error : Kernel → ℕ
  pub wsa_socket : ℕ → ℕ → ℕ → Kernel → Fd × Kernel
  pub bind : Fd → Sockaddr → ℕ → Kernel → Bool × Kernel
  pub listen : Fd → ℕ → Kernel → Bool × Kernel
  pub shutdown : Fd → Kernel → Kernel
  pub closesocket : Fd → Kernel → Kernel
  -- WSAIoctl for the pointers to AcceptEx and ConnectEx: a failure, or whether there is a pointer.
  pub find_accept_ex : Fd → Kernel → Option Bool × Kernel
  pub find_connect_ex : Fd → Kernel → Option Bool × Kernel
  -- The socket that listens, its key, and the new one.
  pub accept_ex : Fd → ℕ → Fd → Kernel → Bool × Kernel
  pub connect_ex : Fd → ℕ → Sockaddr → ℕ → Kernel → Bool × Kernel
  pub wsa_recv : Fd → ℕ → ℕ → Kernel → Bool × Kernel
  pub wsa_send : Fd → ℕ → List ℕ → Kernel → Bool × Kernel
  -- CreateIoCompletionPort, to make a port and to add a socket to it with its key.
  pub create_port : Kernel → Option ℕ × Kernel
  pub associate : Fd → ℕ → ℕ → Kernel → Kernel
  -- PostQueuedCompletionStatus with an `execution_operation`, whose function has a number.
  pub post_exec : ℕ → ℕ → Kernel → Bool × Kernel

-- The `async_operation` that an overlapped pointer stands in, with what the call that ended left in it:
-- the bytes of a read, and the function of an `execution_operation`.
pub data Operation : Type 0 where
  connect_operation write_operation accept_operation : Operation
  read_operation : List ℕ → Operation
  execution_operation : ℕ → Operation

-- What GetQueuedCompletionStatus gives: whether it is a success, the key, and the overlapped pointer.
pub record Completion : Type 0 where
  pub success : Bool
  pub key : Option ℕ
  pub overlapped : Option Operation

-- `socket_base_pimpl`, with the `in_use` and the buffer of `write_op`, and the `new_socket` of
-- `accept_op`.
pub record SocketBasePimpl : Type 0 where
  pub fd_ : Fd
  pub callbacks_ : SocketCallbacks
  pub domain_ : ℕ
  pub type_ : ℕ
  pub protocol_ : ℕ
  pub write_in_use : Bool
  pub write_buffer : List ℕ
  pub new_socket : Option ℕ

-- A callback that the loop makes, with the socket; `ran` is a function that was passed to `exec`.
pub data Call : Type 0 where
  connected disconnected sent : ℕ → Call
  received : ℕ → List ℕ → Call
  accepted : ℕ → ℕ → Call
  error : ℕ → ℕ → Call
  ran : ℕ → Call

abbrev pub Store : Type 0
Store = ℕ → Option SocketBasePimpl

-- The completion port is `hIOCP_`.
pub record Machine (w : Winsock) : Type 0 where
  pub sockets : Store
  pub kernel : w.Kernel
  pub run : Bool
  pub port : ℕ
  pub calls : List Call

-- The system, the allocator, what the application does in a callback, and what GetQueuedCompletionStatus
-- gives.
pub record Env : Type 1 where
  pub winsock : Winsock
  pub open winsock use *
  pub alloc : Machine winsock → ℕ
  pub app : Call → Machine winsock → Machine winsock
  pub get_completion : Kernel → Completion × Kernel

abbrev pub put : ℕ → Option SocketBasePimpl → Store → Store
put a x s b = if a == b then x else s b

-- WSA_IO_PENDING and ERROR_IO_PENDING are one number.
abbrev pub io_pending : ℕ
io_pending = 997

abbrev pub netname_deleted : ℕ
netname_deleted = 64

abbrev pub wait_timeout : ℕ
wait_timeout = 258

-- The size of the buffers of the operations.
abbrev pub operation_buffer : ℕ
operation_buffer = 10 * 1024
