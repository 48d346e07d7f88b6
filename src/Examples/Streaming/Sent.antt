-- ===== src/Examples/Streaming/Sent.antt =====
-- What a round of the loop of ether-dream/examples/dac_stream.rs queues and sends.
use ether_dream.Base.{
  ◌-◌, ◌<◌, ◌≡◌, ◌≢◌, ◌∙◌, refl, ap, arith, List, [], ◌∷◌, map, length, take-all, lt→ltb, some, ok,
}
use ether_dream.Io.Bytes.{Bytes}
use ether_dream.Io.Reader.{ReadBytesExt}
use ether_dream.Io.Writer.{WriteBytesExt}
use ether_dream.Protocol.{DacPoint}
use ether_dream.Dac.Bitflags.{Bitflags}
use ether_dream.Dac.Command.{Command}
use ether_dream.Client.{Stream, CommandQueue, QueuedCommand}
use ether_dream.Client.Queue.{queue_commands, queue_data}
use ether_dream.Client.View.{queued}
use ether_dream.Client.Submit.{submit}
use ether_dream.Emulator.{Shared, known}
use ether_dream.Emulator.Process.{process_interpreted_command}
use ether_dream.Emulator.Run.{process_all}
use ether_dream.Emulator.Wire.{emulated}
use ether_dream.Emulator.Session.{handled}
use ether_dream.Examples.Wave.{F32, SineWave, take_points}
use ether_dream.Examples.Streaming.{
  points_to_generate, queued_with, queue_taken, queue_points, submitted_with, submit_queued,
  submit_points,
}
use ether_dream.Examples.Streaming.Show.{answer}

-- The queue with these points in one command.
abbrev pub filling : Stream → List DacPoint → CommandQueue
filling s points = record {
  stream = record s {
    command_buffer = QueuedCommand.data_range (record { first = 0; past = length points }) ∷ [];
    point_buffer = points;
  };
}

-- The same as the command of run-time kind.
abbrev pub batch : List DacPoint → List Command
batch points = Command.data_points (record { points = points }) ∷ []

pub queue_data-filling :
    (s : Stream) (points : List DacPoint)
    → length points < 65535
    → queue_data (queue_commands s) points ≡ some (filling s points)
unfolding queue_data queue_commands
queue_data-filling s points h = rw (lt→ltb (length points - 0) 65535 (omega (arith, h))) refl

pub queued-filling :
    (s : Stream) (points : List DacPoint) → queued (filling s points) ≡ batch points
queued-filling s points = ap batch (take-all (length points - 0) points (omega arith))

pub filling-queued : (s : Stream) (points : List DacPoint) → queued (filling s points) ≢ []
filling-queued s points h = cc

pub handled-filling :
    (s : Stream) (points : List DacPoint) (d : Shared)
    → handled (filling s points) d ≡ ((answer points d).0 ∷ [], (answer points d).1)
unfolding process_all process_interpreted_command
handled-filling s points d =
    ap (λ (cs : List Command). process_all (map (λ c. known (emulated c)) cs) d)
      (queued-filling s points)

module _ (f : F32) where
  pub queue_points-filling :
      (s : Stream) (wave wave' : SineWave f) (points : List DacPoint)
      → take_points f (points_to_generate s.dac.dac) wave ≡ some (points, wave')
      → length points < 65535
      → queue_points f s wave ≡ some (filling s points, wave')
  unfolding queue_points queue_taken queued_with
  queue_points-filling s wave wave' points takes h =
      ap (queue_taken f s) takes ∙ ap (queued_with f wave') (queue_data-filling s points h)

  pub submitted :
      ⦃b : Bitflags⦄ ⦃r : ReadBytesExt Bytes⦄ ⦃v : WriteBytesExt Bytes⦄ (s : Stream)
      (wave wave' : SineWave f) (points : List DacPoint) {after : Stream}
      → queue_points f s wave ≡ some (filling s points, wave')
      → submit (filling s points) ≡ some (ok tt, after)
      → submit_points f s wave ≡ some (ok tt, after, wave')
  unfolding submit_points submit_queued submitted_with
  submitted s wave wave' points queue done =
      ap (submit_queued f) queue ∙ ap (submitted_with f wave') done
