-- ===== src/Tests/Device.antt =====
-- The emulator at single values.
use ether_dream.Base.{Option, ℕ, ◌≡◌, refl, arith, List, [], ◌∷◌, some, ◌↔◌, ◌<◌}
use ether_dream.Protocol.{DacPoint}
use ether_dream.Protocol.Command.{Stop, ClearEmergencyStop}
use ether_dream.Dac.{LightEngine, playing, idle}
use ether_dream.Emulator.{
  Shared, Command, data_points, stop, clear_emergency_stop, InterpretedCommand, known, unknown,
  Output,
}
use ether_dream.Emulator.Process.{reply, process_interpreted_command}
use ether_dream.Emulator.Invariant.{IsSound, process_interpreted_command-IsSound}
use ether_dream.Emulator.Machine.{Answers, machines, reply-Answers}
use ether_dream.Emulator.Emit.{schedule, done, output_or_underflow, emit}
use ether_dream.Emulator.Emission.{Emitted, emit-Emitted}
use ether_dream.Emulator.Emit.Ends.{emit-ends}
use ether_dream.Emulator.Run.{process_all, IsStopped, process_all-latched}
use ether_dream.Emulator.Select.{
  waiting, reading, answering, Config, schedules, processes, Steps, stay, goes, first_round, IsSafe,
  Steps-IsSafe,
}
use ether_dream.Tests.{
  reader, vec_writer, slice_writer, flags, point, prepared_status, dac_at, shared,
}

shared-IsSound : IsSound shared
shared-IsSound = record {
  capacity = omega arith;
  bounded = omega arith;
  counted = refl;
  engine = λ moving. refl;
}

-- One point more than fits.
abbrev overfull : Command
overfull = data_points (record { points = point ∷ point ∷ [] })

process_interpreted_command_example :
    IsSound (process_interpreted_command (known overfull) shared).1
process_interpreted_command_example =
    process_interpreted_command-IsSound (known overfull) shared shared-IsSound

reply_example : Answers overfull shared (machines shared) (reply overfull shared)
reply_example = reply-Answers overfull shared

abbrev stopped : Shared
stopped = record shared {
  dac =
      dac_at
        (record (prepared_status 1) { light_engine = LightEngine.emergency_stop; playback = idle });
}

abbrev attempts : List InterpretedCommand
attempts =
    known (clear_emergency_stop ClearEmergencyStop.clear_emergency_stop)
    ∷ unknown 0xff
    ∷ known overfull
    ∷ []

process_all-latched_example : IsStopped (process_all attempts stopped).1
process_all-latched_example = process_all-latched attempts stopped refl

-- A point is due at 5, and it is 16 now; the interval is 10 at every rate.
abbrev pub play : Shared
play = record {
  dac = dac_at (record (prepared_status 2) { playback = playing; point_rate = 1000 });
  state = record { next_point_emission = some 5; buffer = point ∷ point ∷ [] };
}

abbrev pub every_ten : ℕ → Option ℕ
every_ten rate = some 10

pub play-IsSound : IsSound play
play-IsSound = record {
  capacity = omega arith;
  bounded = omega arith;
  counted = refl;
  engine = λ moving. refl;
}

emit-Emitted_example :
    (points : List DacPoint) × (after : Shared) × (emit every_ten 16 11 play
      ≡ done (output_or_underflow points, after))
    × Emitted 16 10 5 play points after
emit-Emitted_example = emit-Emitted every_ten 16 11 5 play refl refl (omega arith) (omega arith)

abbrev stop_command : InterpretedCommand
stop_command = known (stop Stop.stop)

-- The timer is set, and a `Stop` is processed but not yet answered.
abbrev stopping : Config
stopping = record {
  shared = (process_interpreted_command stop_command play).1;
  emission = waiting;
  exchange = answering;
}

abbrev timed : Config
timed = record { shared = play; emission = waiting; exchange = reading }

pub play-scheduled : schedule 3 play ≡ some (5, play)
unfolding schedule
play-scheduled = refl

play-stopping : Steps every_ten (first_round play) stopping
play-stopping =
    goes (first_round play) timed stopping (schedules 3 5 reading play play play-scheduled)
      (goes timed stopping stopping (processes stop_command waiting play) (stay stopping))

Steps-IsSafe_example : IsSafe stopping
Steps-IsSafe_example =
    Steps-IsSafe (first_round play) stopping play-stopping
      (record { sound = play-IsSound; armed = tt })

-- At the interval 0.
emit-ends_example :
    ((fuel : ℕ) × (result : Output × Shared) × (emit (λ rate. some 0) 16 fuel play ≡ done result))
    ↔ (0 < 0)
emit-ends_example = emit-ends (λ rate. some 0) 16 5 0 play refl (omega arith) refl
