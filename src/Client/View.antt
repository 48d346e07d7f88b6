-- ===== src/Client/View.antt =====
-- What a queued command stands for: the command of run-time kind, with its points cut out of the
-- point buffer.
use ether_dream.Base.{ℕ, ◌-◌, ◌≤◌, List, [], ◌∷◌, ◌++◌, map, length, take, drop, All}
use ether_dream.Io.Bytes.{Bytes}
use ether_dream.Protocol.{DacPoint}
use ether_dream.Protocol.Command.{
  PrepareStream, Stop, EmergencyStop, ClearEmergencyStop, Ping, prepare_stream_start_byte,
  begin_start_byte, point_rate_start_byte, data_start_byte, stop_start_byte,
  emergency_stop_start_byte, clear_emergency_stop_start_byte, ping_start_byte, u16_max,
}
use ether_dream.Dac.Command.{Command}
use ether_dream.Dac.Command.RoundTrip.{command_bytes}
use ether_dream.Client.{
  QueuedCommand, prepare_stream, begin, point_rate, data_range, stop, emergency_stop,
  clear_emergency_stop, ping, Range, CommandQueue,
}

abbrev pub cut : Range → List DacPoint → List DacPoint
cut range points = take (range.past - range.first) (drop range.first points)

abbrev pub view : List DacPoint → QueuedCommand → Command
view points prepare_stream = Command.prepare_stream PrepareStream.prepare_stream
view points (begin c) = Command.begin c
view points (point_rate c) = Command.point_rate c
view points (data_range range) = Command.data_points (record { points = cut range points })
view points stop = Command.stop Stop.stop
view points emergency_stop = Command.emergency_stop EmergencyStop.emergency_stop
view points clear_emergency_stop =
    Command.clear_emergency_stop ClearEmergencyStop.clear_emergency_stop
view points ping = Command.ping Ping.ping

-- The starting byte of a command.
abbrev pub start_byte : Command → ℕ
start_byte (Command.prepare_stream _) = prepare_stream_start_byte
start_byte (Command.begin _) = begin_start_byte
start_byte (Command.point_rate _) = point_rate_start_byte
start_byte (Command.data_points _) = data_start_byte
start_byte (Command.stop _) = stop_start_byte
start_byte (Command.emergency_stop _) = emergency_stop_start_byte
start_byte (Command.clear_emergency_stop _) = clear_emergency_stop_start_byte
start_byte (Command.ping _) = ping_start_byte

-- A range that lies in the buffer and is short enough for a `Data` command.
pub record IsRange (points : List DacPoint) (range : Range) : Type 0 where
  pub ordered : range.first ≤ range.past
  pub inside : range.past ≤ length points
  pub short : range.past - range.first ≤ u16_max

abbrev pub IsQueued : List DacPoint → QueuedCommand → Type 0
IsQueued points (data_range range) = IsRange points range
IsQueued points _ = Unit {0}

-- Every queued range can be sent.
abbrev pub IsQueue : CommandQueue → Type 0
IsQueue q = All (IsQueued q.stream.point_buffer) q.stream.command_buffer

-- The commands that are queued, in order.
abbrev pub queued : CommandQueue → List Command
queued q = map (view q.stream.point_buffer) q.stream.command_buffer

-- Their bytes on the wire.
unfoldable pub commands_bytes : List Command → Bytes
commands_bytes [] = []
commands_bytes (c ∷ cs) = command_bytes c ++ commands_bytes cs
