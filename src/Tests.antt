-- ===== src/Tests.antt =====
-- Runs of the model on a small system, and the theorems at inputs that meet their hypotheses.
mod Toy
mod Writers
mod Sockets
mod Ssl
mod System
mod Mac
mod Channel
mod Keys
mod Streams
mod Windows
mod Threads
mod Timers
mod WindowsSync
