-- ===== src/Tests/Playing.antt =====
-- The streaming example and the emulator, when a point is sent and played.
use ether_dream.Base.{ℕ, ◌≡◌, refl, arith, [], Option, some, ok}
use ether_dream.Dac.{playing, Dac}
use ether_dream.Dac.Convert.{update_status}
use ether_dream.Emulator.{Shared}
use ether_dream.Emulator.Process.{process_command}
use ether_dream.Emulator.Emit.{done, pop_front, emit_loop, loop_at, emit}
use ether_dream.Examples.Wave.{ahead, take_points, next}
use ether_dream.Examples.Streaming.{points_to_generate}
use ether_dream.Examples.Streaming.Show.{Show, answer, tops_up, emits, Steps, stay, goes, IsOnAir}
use ether_dream.Examples.Streaming.Played.{PlaysOn, plays, Steps-PlaysOn}
use ether_dream.Tests.{flags, flags_laws, prepared_status, prepared_status-HasKnownFlags, dac_at}
use ether_dream.Tests.Programs.{whole, whole-CastsInRange, wave, wave-IsWave, first_batch}

-- It plays, has no points, and can hold two; the next one is due at 5.
abbrev dry : Shared
dry = record {
  dac = dac_at (record (prepared_status 0) { playback = playing; point_rate = 1000 });
  state = record { next_point_emission = some 5; buffer = [] };
}

abbrev fed : Shared
fed = (answer first_batch dry).1

-- After the point is played.
abbrev dry_again : Shared
dry_again = record {
  dac =
      dac_at
        (record (prepared_status 0) { playback = playing; point_rate = 1000; point_count = 1 });
  state = record { next_point_emission = some 15; buffer = [] };
}

abbrev every_ten : ℕ → Option ℕ
every_ten rate = some 10

fed-emits : emit every_ten 6 1 fed ≡ done (ok first_batch, dry_again)
unfolding process_command emit loop_at emit_loop pop_front
fed-emits = refl

abbrev silent : Show whole
silent = record { dac = dry; view = dry.dac.dac; wave = wave }

abbrev view_of_fed : Dac
view_of_fed = (update_status silent.view (answer first_batch dry).0.dac_status).1

abbrev loaded : Show whole
loaded = record { dac = fed; view = view_of_fed; wave = ahead whole 1 wave }

abbrev heard : Show whole
heard = record { dac = dry_again; view = view_of_fed; wave = ahead whole 1 wave }

silent-IsOnAir : IsOnAir whole silent
silent-IsOnAir = record {
  sound = record {
    capacity = omega arith;
    bounded = omega arith;
    counted = refl;
    engine = λ h. refl;
  };
  active = tt;
  flags = record {
    light_engine_flags = (prepared_status-HasKnownFlags 0).light_engine_flags;
    playback_flags = (prepared_status-HasKnownFlags 0).playback_flags;
    data_source = (prepared_status-HasKnownFlags 0).data_source;
  };
  capacity = refl;
  ahead = omega arith;
  below = omega arith;
  wave = wave-IsWave;
}

silent-takes :
    take_points whole (points_to_generate silent.view) wave ≡ some (first_batch, ahead whole 1 wave)
unfolding take_points next points_to_generate
silent-takes = refl

unfoldable show : Steps whole every_ten silent heard
show =
    goes silent loaded heard
      (tops_up dry silent.view wave (ahead whole 1 wave) first_batch silent-takes)
      (goes loaded heard heard
        (emits 6 1 (ok first_batch) fed dry_again view_of_fed (ahead whole 1 wave) fed-emits)
        (stay heard))

Steps-PlaysOn_example : PlaysOn whole silent heard (plays whole silent heard show)
Steps-PlaysOn_example =
    Steps-PlaysOn whole flags_laws whole-CastsInRange silent heard show silent-IsOnAir

-- The first point of the wave is played.
show-played : plays whole silent heard show ≡ first_batch
unfolding plays show
show-played = refl
