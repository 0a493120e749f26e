-- ===== src/Lib.antt =====
-- Verification of the acpp-network library.
--
-- The program. acpp-network is a C++ networking library. `sync` sockets call the system directly; `async`
-- sockets are driven by the loop of an `io_context`, which calls their callbacks; a stream is a chain of
-- layers, with a `socket_stream` at the bottom and, for TLS, an `ssl::stream` above it.
--
-- The parts and their models. A stateful part is a record of the members of the class, and a method is
-- a function on a machine (the object, the kernel or the neighbours, and the calls that were made), in
-- the action type of Prelude/Control: a result, an exception or `out_of_fuel`, and the state that is left.
--   Writer, BufferedWriter: `buffered_writer` of src/detail/common.h over a writer that is a parameter.
--   Posix: the system calls, a parameter. SocketTypes: the callbacks of include/acpp-network/socket_base.h.
--   LinuxSocket (with Registered, Write, Stops and Laws): `socket_base_pimpl` of src/linux/socket_base.cpp,
--   one function for each method; LinuxSocket/Events is its `handle_event`.
--   SocketStream: `socket_stream` of include/acpp-network/stream.h, its writes and its queue.
--   Ssl, Ssl/Operations: `ssl::stream` of include/acpp-network/ssl/ssl.inl, over OpenSSL as a parameter.
--   SyncSocket, SyncSocket/Ownership: the `sync` sockets of src/linux/socket_base.cpp and of
--   include/acpp-network/socket.inl, with all the objects in one store.
--   EventLoop, EventLoop/Queue, EventLoop/Timers (with Owners): `io_context` and the timers of src/linux/socket_base.cpp.
--   Layers: the chain of layers of include/acpp-network/stream.h and its casts.
--   Address: include/acpp-network/address.h and src/address.cpp, with the C library's conversions a parameter.
--   Resolver: `resolve_host` of include/acpp-network/socket.inl.
--   AsyncSocket: `async_socket_base` of src/linux/socket_base.cpp, the owner of a `socket_base_pimpl`.
--   SendLoop: the loop of `so_write` in src/macos/socket_base.cpp, over a call that takes a prefix.
--   MacSocket (with Write): `socket_base_pimpl` of src/macos/socket_base.cpp, over kqueue as a parameter;
--   MacSocket/Events is what the loop does with the read and write events of a socket.
--   MacSync: the `sync` sockets of src/macos/socket_base.cpp.
--   MacOwner (with Dropped): `async_socket_base` of src/macos/socket_base.cpp, in a store of objects.
--   WindowsSocket: the asynchronous sockets of src/windows/socket_base.cpp, over Winsock as a parameter, in a
--   store by the address that a completion carries; WindowsSocket/Port is the loop of the completion port.
--   WindowsSync (with Leaks): the `sync` sockets of src/windows/socket_base.cpp; SyncSocket/Store has the lemmas that
--   they share with those of Linux.
--   WindowsTimers (with Accounts, Once and Cancelled): the timers of src/windows/socket_base.cpp, with the application, the
--   timer queue of the system and the loop as steps in any order.
--   ExecThreads: the steps of threads in `exec` and of the loop that empties the queue, in any order.
--   MacLoop (with Sparing, Batch and Stale): `io_context` and the timers of src/macos/socket_base.cpp; what a callback
--   does to the loop is a list of effects, and what a socket's event makes its callbacks do is a parameter.
--   Stream (with Events and Wiring): the layers of include/acpp-network/stream.h as objects with pointers, and
--   when `socket_stream` sets the callbacks of its socket.
--   Certificates (with Calls and Issued): the certificates and contexts of src/ssl/ssl.cpp, with every call of
--   OpenSSL that it makes a parameter; Certificates/Calls says what those calls are for.
--   Ssl/Operations/Input, Incoming and Opened: what `ssl::stream` gives above; Ssl/Channel: two of them, one at each
--   end of a connection.
--   Tests: small systems, and the theorems at inputs that meet their hypotheses.
--
-- How the parts meet. The asynchronous sockets fill the interface `SendsPrefix` of Writer
-- (LinuxSocket/Write, MacSocket/Write), which the buffered writer and the socket stream ask of what is below them. What
-- an application does in a callback is a function of the environment, and a theorem that needs it to
-- behave says so in a hypothesis.
--
-- Bounds and fuel. `so_write`, on Linux and on macOS, has fuel for one round per byte and one more, which is
-- enough since each round sends a byte at least; a call of `send` is given 20 * 1024 bytes at most on Linux and
-- 4 * 1024 on macOS, and an operation of a completion port 10 * 1024, as in the source. `drain` has one round
-- per byte that a BIO holds, and one more; the loop of `recv` on macOS returns with one turn per byte that
-- waits, and one more. The loops of the three `io_context`, which run until they are stopped, have the number
-- of their rounds as an argument. Sizes are natural numbers; an `int` that is compared as a `size_t` is
-- written out (`to_size`).
--
-- What is not modelled. Logging and messages; the memory of C++ objects beyond what is named above; the
-- moves of certificates and keys and their text (src/ssl/ssl.cpp); threads, but for the order of the steps.
mod Prelude
pub mod Writer
pub mod BufferedWriter
pub mod Posix
pub mod SocketStream
pub mod SocketTypes
pub mod LinuxSocket
pub mod Ssl
pub mod SyncSocket
pub mod EventLoop
pub mod Certificates
pub mod Layers
pub mod Stream
pub mod Address
pub mod Resolver
pub mod AsyncSocket
pub mod WindowsSocket
pub mod WindowsTimers
pub mod WindowsSync
pub mod SendLoop
pub mod MacSocket
pub mod MacLoop
pub mod MacOwner
pub mod MacSync
pub mod ExecThreads
mod Tests
