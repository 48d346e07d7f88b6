-- ===== src/Tests/History.antt =====
-- A run of the emulator: points are played, and more arrive than there is room for.
use ether_dream.Base.{◌≡◌, refl, [], ◌∷◌, ok, some}
use ether_dream.Dac.{playing}
use ether_dream.Emulator.{Shared, data_points, InterpretedCommand, known}
use ether_dream.Emulator.Process.{process_interpreted_command}
use ether_dream.Emulator.Emit.{done, pop_front, emit_loop, loop_at, emit}
use ether_dream.Emulator.Select.{
  unpolled, waiting, reading, answering, Config, schedules, processes, continues, emits, Steps,
  stay, goes, first_round,
}
use ether_dream.Emulator.History.{Track, Tracks, note_steps, Steps-Tracks}
use ether_dream.Tests.{point, prepared_status, dac_at}
use ether_dream.Tests.Device.{play, play-IsSound, play-scheduled, every_ten}

-- Three points to a buffer that holds two.
abbrev three : InterpretedCommand
three = known (data_points (record { points = point ∷ point ∷ point ∷ [] }))

abbrev empty : Shared
empty = record {
  dac =
      dac_at
        (record (prepared_status 0) { playback = playing; point_rate = 1000; point_count = 2 });
  state = record { next_point_emission = some 25; buffer = [] };
}

play-emits : emit every_ten 16 11 play ≡ done (ok (point ∷ point ∷ []), empty)
unfolding emit loop_at emit_loop pop_front
play-emits = refl

abbrev starts : Config
starts = first_round play

abbrev waits : Config
waits = record { shared = play; emission = waiting; exchange = reading }

abbrev emptied : Config
emptied = first_round empty

abbrev answers : Config
answers = record {
  shared = (process_interpreted_command three empty).1;
  emission = unpolled;
  exchange = answering;
}

abbrev again : Config
again = first_round (process_interpreted_command three empty).1

unfoldable whole_run : Steps every_ten starts again
whole_run = goes starts waits again (schedules 3 5 reading play play play-scheduled) (
    goes waits emptied again (emits 16 11 (ok (point ∷ point ∷ [])) reading play empty play-emits) (
      goes emptied answers again (processes three unpolled empty) (
        goes answers again again (continues unpolled (process_interpreted_command three empty).1)
          (stay again))))

abbrev before : Track
before = record { accepted = point ∷ point ∷ []; played = [] }

before-Tracks : Tracks play before
before-Tracks = record { in_order = refl; fullness = refl; point_count = refl }

Steps-Tracks_example : Tracks again.shared (note_steps starts again whole_run before)
Steps-Tracks_example =
    Steps-Tracks starts again whole_run before (record { sound = play-IsSound; armed = tt })
      before-Tracks

-- Two points are played, and two of the three that arrive wait.
whole_run-noted :
    note_steps starts again whole_run before
    ≡ record { accepted = point ∷ point ∷ point ∷ point ∷ []; played = point ∷ point ∷ [] }
unfolding note_steps whole_run process_interpreted_command
whole_run-noted = refl
