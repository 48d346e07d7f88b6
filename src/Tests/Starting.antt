-- ===== src/Tests/Starting.antt =====
-- The streaming example, when it prepares a DAC that is idle and when it begins.
use ether_dream.Base.{◌≡◌, refl, arith, [], replicate, none, some, ok}
use ether_dream.Io.Bytes.{Bytes}
use ether_dream.Io.Standard.{slice_reader_laws, writer_to_laws}
use ether_dream.Io.Slice.{vec_write, slice_write}
use ether_dream.Protocol.Layout.{IsStatus}
use ether_dream.Dac.{Addressed, idle}
use ether_dream.Dac.Convert.{status_to_protocol}
use ether_dream.Client.{Stream}
use ether_dream.Client.View.{queued, commands_bytes}
use ether_dream.Client.Receiving.{responses_bytes}
use ether_dream.Emulator.{Shared}
use ether_dream.Emulator.Process.{status_of}
use ether_dream.Emulator.Invariant.{IsSound}
use ether_dream.Emulator.Interpret.{Tcp}
use ether_dream.Emulator.Exchange.{serve}
use ether_dream.Emulator.Session.{handled}
use ether_dream.Examples.Wave.{ahead}
use ether_dream.Examples.Streaming.{submit_prepare, submit_first}
use ether_dream.Examples.Streaming.Show.{IsOnAir}
use ether_dream.Examples.Streaming.Batch.{extended}
use ether_dream.Examples.Streaming.Wire.{both_ends}
use ether_dream.Examples.Streaming.Opening.{readied, begun, preparing, opening}
use ether_dream.Examples.Streaming.Starting.{submit_prepare-IsOnAir, submit_first-IsOnAir}
use ether_dream.Tests.{
  reader, vec_writer, slice_writer, flags, flags_laws, prepared_status,
  prepared_status-HasKnownFlags, dac_at, connection,
}
use ether_dream.Tests.Programs.{
  whole, whole-CastsInRange, wave, wave-IsWave, first_batch, first_batch-taken, empty_dac,
  empty_dac-IsStatus, on_air-IsOnAir,
}

abbrev idle_dac : Shared
idle_dac = record {
  dac = dac_at (record (prepared_status 0) { playback = idle });
  state = record { next_point_emission = none; buffer = [] };
}

idle_dac-IsSound : IsSound idle_dac
idle_dac-IsSound = record {
  capacity = omega arith;
  bounded = omega arith;
  counted = refl;
  engine = λ moving. refl;
}

idle_dac-IsStatus : IsStatus (status_to_protocol (status_of idle_dac))
unfolding status_to_protocol
idle_dac-IsStatus = ground arith

-- A client that knows a DAC and has received some bytes, and an emulator that has.
abbrev client_of : Addressed → Bytes → Stream
client_of dac bytes = record {
  dac = dac;
  tcp_stream = connection bytes;
  command_buffer = [];
  point_buffer = [];
  bytes = [];
}

abbrev emulator_with : Bytes → Tcp
emulator_with bytes = record { stream = connection bytes; peeks = []; bytes = replicate 39 0 }

abbrev before : Stream
before =
    client_of idle_dac.dac
      (responses_bytes (handled (preparing (client_of idle_dac.dac [])) idle_dac).0)

submit_prepare-IsOnAir_example :
    (after : Stream) × (served : Tcp) × (submit_prepare whole before wave
      ≡ some (ok tt, after, wave))
    × (serve 1 idle_dac (emulator_with (commands_bytes (queued (preparing before))))
        ≡ some (ok tt, readied idle_dac, served))
    × IsOnAir whole (both_ends whole after (readied idle_dac) wave)
submit_prepare-IsOnAir_example =
    submit_prepare-IsOnAir whole flags_laws slice_reader_laws (writer_to_laws vec_write)
      (writer_to_laws slice_write) before idle_dac
      (emulator_with (commands_bytes (queued (preparing before)))) wave idle_dac-IsSound refl refl
      (record {
        light_engine_flags = (prepared_status-HasKnownFlags 0).light_engine_flags;
        playback_flags = (prepared_status-HasKnownFlags 0).playback_flags;
        data_source = (prepared_status-HasKnownFlags 0).data_source;
      })
      idle_dac-IsStatus refl (omega arith) wave-IsWave (omega arith) refl refl refl refl refl

abbrev ready_to_begin : Stream
ready_to_begin =
    client_of empty_dac.dac (
      responses_bytes (handled (opening (client_of empty_dac.dac []) first_batch 1000) empty_dac).0)

submit_first-IsOnAir_example :
    (after : Stream) × (served : Tcp) × (submit_first whole 1000 ready_to_begin wave
      ≡ some (ok tt, after, ahead whole 1 wave))
    × (serve 2 empty_dac
          (emulator_with (commands_bytes (queued (opening ready_to_begin first_batch 1000))))
        ≡ some (ok tt, begun 1000 (extended empty_dac first_batch), served))
    × IsOnAir whole
        (both_ends whole after (begun 1000 (extended empty_dac first_batch)) (ahead whole 1 wave))
submit_first-IsOnAir_example =
    submit_first-IsOnAir whole flags_laws slice_reader_laws (writer_to_laws vec_write)
      (writer_to_laws slice_write) whole-CastsInRange ready_to_begin empty_dac
      (emulator_with (commands_bytes (queued (opening ready_to_begin first_batch 1000)))) wave
      (ahead whole 1 wave) first_batch 1000 on_air-IsOnAir refl (omega arith) empty_dac-IsStatus
      first_batch-taken (omega arith) refl refl refl refl refl refl
