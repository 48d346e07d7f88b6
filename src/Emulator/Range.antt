-- ===== src/Emulator/Range.antt =====
-- The fields of the responses are in the ranges of their types, so that the wire carries them.
use ether_dream.Base.{◌^◌, ◌<◌, arith, List, [], ◌∷◌, map, All}
use ether_dream.Io.Bytes.{IsByte}
use ether_dream.Protocol.Layout.{IsStatus, IsResponse}
use ether_dream.Dac.{Status, LightEngine, Playback}
use ether_dream.Dac.Convert.{
  status_to_protocol, light_engine_to_protocol, playback_to_protocol, data_source_to_protocol,
}
use ether_dream.Dac.Command.{
  Command, prepare_stream, begin, point_rate, data_points, stop, emergency_stop,
  clear_emergency_stop, ping,
}
use ether_dream.Dac.Command.RoundTrip.{IsCommand}
use ether_dream.Emulator.{Shared, known}
use ether_dream.Emulator.Process.{
  status_of, reply, echo_byte, process_command, process_interpreted_command,
}
use ether_dream.Emulator.Run.{process_all}
use ether_dream.Emulator.Wire.{emulated}

light_engine-IsByte : (e : LightEngine) → IsByte (light_engine_to_protocol e)
unfolding light_engine_to_protocol
light_engine-IsByte e = ground arith

playback-IsByte : (p : Playback) → IsByte (playback_to_protocol p)
unfolding playback_to_protocol
playback-IsByte p = ground arith

-- The numbers of a status that a command may change.
pub record InRange (s : Status) : Type 0 where
  pub protocol : IsByte s.protocol
  pub light_engine_flags : s.light_engine_flags.bits < 2 ^ 16
  pub playback_flags : s.playback_flags.bits < 2 ^ 16
  pub source : IsByte (data_source_to_protocol s.data_source).0
  pub source_flags : (data_source_to_protocol s.data_source).1 < 2 ^ 16
  pub buffer_fullness : s.buffer_fullness < 2 ^ 16
  pub point_rate : s.point_rate < 2 ^ 32
  pub point_count : s.point_count < 2 ^ 32

pub InRange-IsStatus : (s : Status) → InRange s → IsStatus (status_to_protocol s)
unfolding status_to_protocol
InRange-IsStatus s h = record {
  protocol = h.protocol;
  light_engine_state = light_engine-IsByte s.light_engine;
  playback_state = playback-IsByte s.playback;
  source = h.source;
  light_engine_flags = h.light_engine_flags;
  playback_flags = h.playback_flags;
  source_flags = h.source_flags;
  buffer_fullness = h.buffer_fullness;
  point_rate = h.point_rate;
  point_count = h.point_count;
}

pub IsStatus-InRange : (s : Status) → IsStatus (status_to_protocol s) → InRange s
unfolding status_to_protocol
IsStatus-InRange s h = record {
  protocol = h.protocol;
  light_engine_flags = h.light_engine_flags;
  playback_flags = h.playback_flags;
  source = h.source;
  source_flags = h.source_flags;
  buffer_fullness = h.buffer_fullness;
  point_rate = h.point_rate;
  point_count = h.point_count;
}

pub reply-InRange :
    (c : Command) (s : Shared)
    → IsCommand c
    → InRange (status_of s)
    → InRange (status_of (reply (emulated c) s).1)
unfolding reply
reply-InRange (prepare_stream c) s hc h = ground arith
reply-InRange (begin c) s hc h = ground arith
reply-InRange (point_rate c) s hc h = ground arith
reply-InRange (data_points c) s hc h = ground arith
reply-InRange (stop c) s hc h = ground arith
reply-InRange (emergency_stop c) s hc h = ground arith
reply-InRange (clear_emergency_stop c) s hc h = ground arith
reply-InRange (ping c) s hc h = h

reply-IsByte : (c : Command) (s : Shared) → IsByte (reply (emulated c) s).0
unfolding reply
reply-IsByte (prepare_stream c) s = ground arith
reply-IsByte (begin c) s = ground arith
reply-IsByte (point_rate c) s = ground arith
reply-IsByte (data_points c) s = ground arith
reply-IsByte (stop c) s = ground arith
reply-IsByte (emergency_stop c) s = ground arith
reply-IsByte (clear_emergency_stop c) s = ground arith
reply-IsByte (ping c) s = ground arith

echo_byte-IsByte : (c : Command) → IsByte (echo_byte (emulated c))
unfolding echo_byte
echo_byte-IsByte (prepare_stream c) = omega arith
echo_byte-IsByte _ = omega arith

process_all-InRange :
    (cs : List Command) (s : Shared)
    → All IsCommand cs
    → InRange (status_of s)
    → All IsResponse (process_all (map (λ c. known (emulated c)) cs) s).0
unfolding process_all process_interpreted_command process_command
process_all-InRange [] s hs h = tt
process_all-InRange (c ∷ cs) s (hc, hs) h =
    let after = reply-InRange c s hc h in
    (
      record {
        response = reply-IsByte c s;
        command = echo_byte-IsByte c;
        dac_status = InRange-IsStatus _ after;
      },
      process_all-InRange cs (reply (emulated c) s).1 hs after,
    )

-- From a status in range, commands in range are answered by responses in range.
pub process_all-IsResponse :
    (cs : List Command) (s : Shared)
    → All IsCommand cs
    → IsStatus (status_to_protocol (status_of s))
    → All IsResponse (process_all (map (λ c. known (emulated c)) cs) s).0
process_all-IsResponse cs s hs h = process_all-InRange cs s hs (IsStatus-InRange (status_of s) h)
