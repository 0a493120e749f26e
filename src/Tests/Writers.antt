-- ===== src/Tests/Writers.antt =====
-- The buffered writer and the stream over a socket with room for two bytes.
use acpp_network.Prelude.{
  List, ◌++◌, true, ok, min, length, take, ℕ, ◌≡◌, refl, [], ◌∷◌, Ensures, arith,
}
use acpp_network.LinuxSocket.{Machine}
use acpp_network.LinuxSocket.Write.{linux_writer, linux_writer-SendsPrefix}
use acpp_network.Writer.{Writer, SendsPrefix}
use acpp_network.BufferedWriter.{BufferedWriter, write, write_buffered}
use acpp_network.BufferedWriter.Fifo.{Accepted, Flushed, write-Accepted, write_buffered-Flushed}
use acpp_network.SocketStream
use acpp_network.SocketStream.{SocketStream}
use acpp_network.SocketStream.Pending.{Wired, wire, write-Wired, on_sent-wire}
use acpp_network.SocketStream.Drains.{MakesRoom, events, events-drain}
use acpp_network.Tests.Toy.{env, laws, quiet, machine}

abbrev writer : Writer (Machine env)
writer = linux_writer env

abbrev law : SendsPrefix writer
law = linux_writer-SendsPrefix env laws quiet

abbrev buffered : BufferedWriter (Machine env)
buffered = record { buffer = 5 ∷ []; capacity = 4; buffer_size = 4; writer = machine }

abbrev stream : SocketStream (Machine env)
stream = record { pending_data_ = []; socket_ = machine }

abbrev waiting : SocketStream (Machine env)
waiting = record { pending_data_ = 1 ∷ 2 ∷ 3 ∷ []; socket_ = machine }

write-Accepted_example :
    Ensures
      (Accepted writer law (6 ∷ 7 ∷ 8 ∷ 9 ∷ []) buffered)
      (write writer (6 ∷ 7 ∷ 8 ∷ 9 ∷ []) buffered)
write-Accepted_example =
    write-Accepted writer law (6 ∷ 7 ∷ 8 ∷ 9 ∷ []) buffered
      (record { bounded = omega arith; exact = refl }) refl

write_buffered-Flushed_example :
    Ensures (Flushed writer law buffered) (write_buffered writer buffered)
write_buffered-Flushed_example =
    write_buffered-Flushed writer law buffered (record { bounded = omega arith; exact = refl }) refl

write-Wired_example :
    Ensures
      (λ r t. (r ≡ 3) × Wired writer law (1 ∷ 2 ∷ 3 ∷ []) stream t)
      (SocketStream.write writer (1 ∷ 2 ∷ 3 ∷ []) stream)
write-Wired_example = write-Wired writer law (1 ∷ 2 ∷ 3 ∷ []) stream refl refl

on_sent-wire_example :
    Ensures (λ _ t. wire writer law t ≡ 1 ∷ 2 ∷ 3 ∷ []) (SocketStream.on_sent writer waiting)
on_sent-wire_example = on_sent-wire writer law waiting refl

-- A writer that takes two bytes at a time; its state is what it took.
abbrev two : Writer (List ℕ)
two = record {
  so_write = λ bytes s. (ok (min 2 (length bytes)), s ++ take (min 2 (length bytes)) bytes);
  write_enabled = λ s. true;
}

abbrev two_law : SendsPrefix two
two_law = record {
  out = λ s. s;
  IsReady = λ s. Unit {0};
  so_write_Sent = λ bytes s ready. (omega arith, refl);
}

two_rooms : MakesRoom two two_law (λ s. s)
two_rooms = record {
  room_out = λ s. refl;
  room_ready = λ s ready. ready;
  takes_some = λ bytes s ready some_byte. ((omega arith, refl), omega arith, tt);
}

events-drain_example :
    Ensures
      (λ _ t. (t.pending_data_ ≡ []) × (t.socket_ ≡ 9 ∷ 1 ∷ 2 ∷ 3 ∷ []))
      (events two two_law
        (λ s. s)
        two_rooms
        3
        (record { pending_data_ = 1 ∷ 2 ∷ 3 ∷ []; socket_ = 9 ∷ [] }))
events-drain_example =
    events-drain two two_law (λ s. s) two_rooms 3
      (record { pending_data_ = 1 ∷ 2 ∷ 3 ∷ []; socket_ = 9 ∷ [] }) tt (omega arith)
