-- ===== src/Tests/Host.antt =====
-- The client's side at single values.
use ether_dream.Base.{ℕ, ◌<◌, ◌≡◌, refl, arith, List, [], ◌∷◌, ◌++◌, take, length, some, Result, ok}
use ether_dream.Io.{IoError}
use ether_dream.Io.Bytes.{Bytes, le_bytes}
use ether_dream.Io.Standard.{slice_reader_laws, writer_to_laws}
use ether_dream.Io.Slice.{vec_write}
use ether_dream.Protocol.{DacPoint, DacResponse, nak_invalid}
use ether_dream.Protocol.Command.{PrepareStream, Stop, Ping, Begin}
use ether_dream.Protocol.Command.Encode.{begin_to_bytes}
use ether_dream.Protocol.Command.Layout.{begin_bytes}
use ether_dream.Protocol.Command.RoundTrip.{Writes-begin}
use ether_dream.Protocol.Layout.{IsResponse, broadcast_bytes}
use ether_dream.Dac.Command.{Command}
use ether_dream.Client.{Stream, CommandQueue, QueuedCommand, CommunicationError}
use ether_dream.Client.Tcp.{TcpStream, accepts}
use ether_dream.Client.View.{IsQueue, queued, commands_bytes}
use ether_dream.Client.Queue
use ether_dream.Client.Queue.{queue_data}
use ether_dream.Client.Building.{Appends, builders-Appends}
use ether_dream.Client.Submit.{send_command, submit}
use ether_dream.Client.Receiving.{responses_bytes}
use ether_dream.Client.Submission.{Submitted, submit_lem, send_command_partial}
use ether_dream.Client.Discovery.{RecvDacBroadcasts, next_broadcast, next_broadcast-truncated}
use ether_dream.Tests.{
  reader, vec_writer, flags, point, broadcast, broadcast-IsBroadcast, accepted, accepted-IsResponse,
  prepared_status, dac_at, connection,
}

abbrev stream_with : Bytes → List QueuedCommand → List DacPoint → Stream
stream_with incoming commands points = record {
  dac = dac_at (prepared_status 0);
  tcp_stream = connection incoming;
  command_buffer = commands;
  point_buffer = points;
  bytes = [];
}

-- A stream is prepared and a point is sent.
abbrev batch : List QueuedCommand
batch =
    QueuedCommand.prepare_stream ∷ QueuedCommand.data_range (record { first = 0; past = 1 }) ∷ []

abbrev queue_of : Bytes → CommandQueue
queue_of incoming = record { stream = stream_with incoming batch (point ∷ []) }

queue_of-IsQueue : (incoming : Bytes) → IsQueue (queue_of incoming)
queue_of-IsQueue incoming =
    (tt, (record { ordered = omega arith; inside = omega arith; short = omega arith }, tt))

builders_example :
    let q = queue_of [] in
    Appends q (Command.prepare_stream PrepareStream.prepare_stream) (Queue.prepare_stream q)
    × Appends q
        (Command.begin (record { low_water_mark = 3; point_rate = 30000 }))
        (Queue.begin q 3 30000)
    × Appends q (Command.point_rate (record { rate = 30000 })) (Queue.point_rate q 30000)
    × Appends q (Command.stop Stop.stop) (Queue.stop q)
    × Appends q (Command.stop Stop.stop) (Queue.emergency_stop q)
    × Appends q (Command.stop Stop.stop) (Queue.clear_emergency_stop q)
    × Appends q (Command.ping Ping.ping) (Queue.ping q)
builders_example = builders-Appends (queue_of []) 3 30000 (queue_of-IsQueue [])

-- The first command is accepted and the second refused.
abbrev refused : DacResponse
refused = record accepted { response = nak_invalid; command = 0x64 }

refused-IsResponse : IsResponse refused
refused-IsResponse = ground arith

abbrev answers : List DacResponse
answers = accepted ∷ refused ∷ []

submit_example :
    (result : Result CommunicationError (Unit {0})) × (after : Stream) × (submit
        (queue_of (responses_bytes answers))
      ≡ some (result, after))
    × (after.tcp_stream.sent ≡ [] ++ commands_bytes (queued (queue_of (responses_bytes answers))))
    × Submitted (queue_of (responses_bytes answers)) answers result after
submit_example =
    submit_lem slice_reader_laws (writer_to_laws vec_write) (queue_of (responses_bytes answers))
      answers (queue_of-IsQueue (responses_bytes answers)) refl
      (accepted-IsResponse, (refused-IsResponse, tt)) refl

abbrev slow : Begin
slow = record { low_water_mark = 0; point_rate = 1000 }

abbrev short_connection : TcpStream
short_connection = record (connection []) { outcomes = accepts 2 ∷ [] }

short : 2 < length (begin_bytes slow)
unfolding begin_bytes le_bytes
short = omega arith

send_command_partial_example :
    ((send_command slow short_connection).0 ≡ ok tt)
    × ((send_command slow short_connection).1.tcp_stream.sent ≡ [] ++ take 2 (begin_bytes slow))
send_command_partial_example =
    send_command_partial slow short_connection (begin_bytes slow) 2
      (Writes-begin (writer_to_laws vec_write) slow) refl short

-- A socket that yields one datagram from the sender 5.
abbrev one_datagram : Bytes → Unit {0} → Result IoError (Bytes × ℕ) × Unit {0}
one_datagram bytes u = (ok (bytes, 5), u)

abbrev receiver_with : Bytes → RecvDacBroadcasts (Unit {0})
receiver_with buffer = record { udp_socket = tt; buffer = buffer }

next_broadcast-truncated_example :
    (next_broadcast
      (one_datagram (take 3 (broadcast_bytes broadcast)))
      (receiver_with (broadcast_bytes broadcast))).0
    ≡ ok (broadcast, 5)
next_broadcast-truncated_example =
    next_broadcast-truncated (one_datagram (take 3 (broadcast_bytes broadcast))) slice_reader_laws
      (receiver_with (broadcast_bytes broadcast)) broadcast 3 5 tt refl broadcast-IsBroadcast refl
