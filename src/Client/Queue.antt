-- ===== src/Client/Queue.antt =====
-- `Stream::queue_commands` and the builders of `CommandQueue`. A builder that panics gives `none`.
use ether_dream.Base.{ℕ, ◌-◌, List, [], ◌∷◌, ◌++◌, length, ltb, if◌then◌else◌, Option, none, some}
use ether_dream.Protocol.{DacPoint}
use ether_dream.Protocol.Command.{u16_max}
use ether_dream.Client.{Stream, CommandQueue, QueuedCommand}

unfoldable pub queue_commands : Stream → CommandQueue
queue_commands self = record { stream = record self { command_buffer = []; point_buffer = [] } }

abbrev pub push_command : CommandQueue → QueuedCommand → CommandQueue
push_command self c = record {
  stream = record self.stream { command_buffer = self.stream.command_buffer ++ c ∷ [] };
}

unfoldable pub prepare_stream : CommandQueue → CommandQueue
prepare_stream self = push_command self QueuedCommand.prepare_stream

unfoldable pub begin : CommandQueue → ℕ → ℕ → CommandQueue
begin self low_water_mark point_rate =
    push_command self
      (QueuedCommand.begin (record { low_water_mark = low_water_mark; point_rate = point_rate }))

unfoldable pub point_rate : CommandQueue → ℕ → CommandQueue
point_rate self rate = push_command self (QueuedCommand.point_rate (record { rate = rate }))

-- The `assert!` is the test.
unfoldable pub queue_data : CommandQueue → List DacPoint → Option CommandQueue
queue_data self points =
    let start = length self.stream.point_buffer in
    let extended : CommandQueue = record {
      stream = record self.stream { point_buffer = self.stream.point_buffer ++ points };
    } in
    let end = length (self.stream.point_buffer ++ points) in
    if ltb (end - start) u16_max
    then some
        (push_command extended (QueuedCommand.data_range (record { first = start; past = end })))
    else none

unfoldable pub stop : CommandQueue → CommandQueue
stop self = push_command self QueuedCommand.stop

unfoldable pub emergency_stop : CommandQueue → CommandQueue
emergency_stop self = push_command self QueuedCommand.stop

unfoldable pub clear_emergency_stop : CommandQueue → CommandQueue
clear_emergency_stop self = push_command self QueuedCommand.stop

unfoldable pub ping : CommandQueue → CommandQueue
ping self = push_command self QueuedCommand.ping
