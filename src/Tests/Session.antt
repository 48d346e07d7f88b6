-- ===== src/Tests/Session.antt =====
-- Reading commands, and whole exchanges, at single values.
use ether_dream.Base.{
  ◌≤◌, ◌≡◌, refl, arith, List, [], ◌∷◌, ◌++◌, inr, All, replicate, length, some, none, ok,
}
use ether_dream.Io.Bytes.{Bytes, le_bytes}
use ether_dream.Io.Standard.{slice_reader_laws, writer_to_laws}
use ether_dream.Io.Slice.{vec_write, slice_write}
use ether_dream.Protocol.{ack}
use ether_dream.Protocol.Command.{Ping}
use ether_dream.Protocol.Layout.{IsStatus}
use ether_dream.Protocol.Command.Layout.{begin_bytes}
use ether_dream.Dac.{Status, LightEngine, playing, idle}
use ether_dream.Dac.Convert.{status_to_protocol}
use ether_dream.Dac.Command.RoundTrip.{command_bytes}
use ether_dream.Client.{Stream, CommandQueue, QueuedCommand}
use ether_dream.Client.Receiving.{responses_bytes}
use ether_dream.Client.View.{commands_bytes, queued}
use ether_dream.Client.Submit.{submit}
use ether_dream.Emulator.{ping, unknown}
use ether_dream.Emulator.Process.{process_interpreted_command}
use ether_dream.Emulator.Run.{process_all}
use ether_dream.Emulator.Interpret.{Tcp, read_from_tcp_stream}
use ether_dream.Emulator.Reading.{Leaves, Interprets}
use ether_dream.Emulator.Wire.{
  read_from_tcp_stream-known, read_from_tcp_stream-unknown, read_from_tcp_stream-oversized,
}
use ether_dream.Emulator.Exchange.{FitsIn, serve}
use ether_dream.Emulator.Session.{handled, Completes, submit-serve}
use ether_dream.Tests.{
  prepared_status, reader, vec_writer, slice_writer, flags, flags_laws,
  prepared_status-HasKnownFlags, shared, connection,
}

-- A buffer that was made for two points.
abbrev tcp_with : Bytes → Tcp
tcp_with incoming = record { stream = connection incoming; peeks = []; bytes = replicate 39 0 }

abbrev wire_ping : ether_dream.Dac.Command.Command
wire_ping = ether_dream.Dac.Command.ping Ping.ping

abbrev wire_begin : ether_dream.Dac.Command.Command
wire_begin = ether_dream.Dac.Command.begin (record { low_water_mark = 0; point_rate = 1000 })

wire_ping-incoming : ◌≡◌ {A = Bytes} (0x3f ∷ 0x70 ∷ []) (command_bytes wire_ping ++ 0x70 ∷ [])
unfolding command_bytes le_bytes
wire_ping-incoming = refl

wire_ping-fits : length (command_bytes wire_ping) ≤ 39
unfolding command_bytes le_bytes
wire_ping-fits = omega arith

wire_begin-FitsIn : FitsIn 39 wire_begin
unfolding command_bytes begin_bytes le_bytes
wire_begin-FitsIn = (record { low_water_mark = omega arith; point_rate = omega arith }, omega arith)

read_from_tcp_stream-known_example :
    Interprets
      (tcp_with (0x3f ∷ 0x70 ∷ []))
      (0x70 ∷ [])
      (read_from_tcp_stream (tcp_with (0x3f ∷ 0x70 ∷ [])))
      (ping Ping.ping)
read_from_tcp_stream-known_example =
    read_from_tcp_stream-known slice_reader_laws wire_ping (tcp_with (0x3f ∷ 0x70 ∷ [])) (0x70 ∷ [])
      tt refl wire_ping-incoming wire_ping-fits

read_from_tcp_stream-unknown_example :
    (after : Tcp) × (read_from_tcp_stream (tcp_with (0xff ∷ [])) ≡ some (ok (unknown 0xff), after))
    × Leaves (tcp_with (0xff ∷ [])) (0xff ∷ []) after
read_from_tcp_stream-unknown_example =
    read_from_tcp_stream-unknown slice_reader_laws (tcp_with (0xff ∷ [])) 0xff [] refl refl
      (omega arith) (inr refl)

read_from_tcp_stream-oversized_example :
    read_from_tcp_stream (tcp_with (0x64 ∷ le_bytes 2 3 ++ [])) ≡ none
read_from_tcp_stream-oversized_example =
    read_from_tcp_stream-oversized slice_reader_laws (tcp_with (0x64 ∷ le_bytes 2 3 ++ [])) 3 []
      refl (omega arith) refl (omega arith) (omega arith)

abbrev commands : List QueuedCommand
commands =
    QueuedCommand.begin (record { low_water_mark = 0; point_rate = 1000 }) ∷ QueuedCommand.ping ∷ []

abbrev queue_before : Bytes → CommandQueue
queue_before incoming = record {
  stream = record {
    dac = shared.dac;
    tcp_stream = connection incoming;
    command_buffer = commands;
    point_buffer = [];
    bytes = [];
  };
}

abbrev responses : Bytes
responses = responses_bytes (handled (queue_before []) shared).0

abbrev the_queue : CommandQueue
the_queue = queue_before responses

shared-IsStatus : IsStatus (status_to_protocol (prepared_status 1))
unfolding status_to_protocol
shared-IsStatus = ground arith

handled-accepted : All (λ d. d.response ≡ ack) (handled the_queue shared).0
unfolding process_all process_interpreted_command
handled-accepted = (refl, (refl, tt))

submit-serve_example :
    (after : Stream) × (served : Tcp) × (submit the_queue ≡ some (ok tt, after))
    × (serve 2 shared (tcp_with (commands_bytes (queued the_queue)))
        ≡ some (ok tt, (handled the_queue shared).1, served))
    × Completes the_queue shared (tcp_with (commands_bytes (queued the_queue))) after served
submit-serve_example =
    submit-serve flags_laws slice_reader_laws (writer_to_laws vec_write)
      (writer_to_laws slice_write) the_queue shared (tcp_with (commands_bytes (queued the_queue)))
      (tt, (tt, tt)) (wire_begin-FitsIn, ((tt, wire_ping-fits), tt)) (omega arith) refl refl refl
      (prepared_status-HasKnownFlags 1) (λ empty. refl) shared-IsStatus handled-accepted refl refl
