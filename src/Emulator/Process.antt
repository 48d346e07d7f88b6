-- ===== src/Emulator/Process.antt =====
-- `process_command` and `process_interpreted_command` of dac-emulator/src/stream.rs. The DAC and the
-- state are borrowed mutably: what they are afterwards comes back beside the response.
use ether_dream.Base.{
  ℕ, ◌+◌, ◌-◌, ◌%◌, ◌^◌, min, List, [], ◌∷◌, ◌++◌, length, take, leb, if◌then◌else◌, none,
}
use ether_dream.Protocol.{DacPoint, DacResponse, ack, nak_full, nak_invalid}
use ether_dream.Protocol.Command.{
  prepare_stream_start_byte, begin_start_byte, point_rate_start_byte, data_start_byte,
  stop_start_byte, emergency_stop_start_byte, clear_emergency_stop_start_byte, ping_start_byte,
}
use ether_dream.Dac.{LightEngine, ready, Playback, idle, prepared, playing, Status}
use ether_dream.Dac.Convert.{status_to_protocol}
use ether_dream.Emulator.{
  Shared, Command, prepare_stream, begin, point_rate, data_points, stop, emergency_stop,
  clear_emergency_stop, ping, InterpretedCommand, known, unknown,
}

-- `dac.status` assigned anew.
abbrev pub with_status : Shared → Status → Shared
with_status s status = record s {
  dac = record s.dac { dac = record s.dac.dac { status = status } };
}

abbrev pub status_of : Shared → Status
status_of s = s.dac.dac.status

abbrev pub capacity_of : Shared → ℕ
capacity_of s = s.dac.dac.buffer_capacity

-- A response's first byte, with what the command leaves.
abbrev pub Reply : Type 0
Reply = ℕ × Shared

-- The match of `PrepareStream`.
unfoldable pub reply_prepare : LightEngine → Playback → Shared → Reply
reply_prepare ready idle s =
    let status = record (status_of s) {
      playback = prepared;
      point_count = 0;
      buffer_fullness = 0;
    } in
    let cleared = with_status s status in
    (ack, record cleared { state = record { next_point_emission = none; buffer = [] } })
reply_prepare _ _ s = (nak_invalid, s)

unfoldable pub reply_begin_buffered : List DacPoint → ℕ → Shared → Reply
reply_begin_buffered [] rate s = (nak_invalid, s)
reply_begin_buffered (_ ∷ _) rate s =
    (ack, with_status s (record (status_of s) { playback = playing; point_rate = rate }))

unfoldable pub reply_begin : LightEngine → Playback → ℕ → Shared → Reply
unfolding reply_begin_buffered
reply_begin ready prepared rate s = reply_begin_buffered s.state.buffer rate s
reply_begin _ _ rate s = (nak_invalid, s)

unfoldable pub set_rate : ℕ → Shared → Reply
set_rate rate s = (ack, with_status s (record (status_of s) { point_rate = rate }))

unfoldable pub reply_point_rate : LightEngine → Playback → ℕ → Shared → Reply
unfolding set_rate
reply_point_rate ready prepared rate s = set_rate rate s
reply_point_rate ready playing rate s = set_rate rate s
reply_point_rate _ _ rate s = (nak_invalid, s)

-- `usize` is taken as 64 bits wide; the subtraction wraps as in a release build.
unfoldable pub extend_buffer : List DacPoint → Shared → Reply
extend_buffer points s =
    let current_len = length s.state.buffer in
    let target_len = current_len + length points in
    let new_len = min target_len (capacity_of s) in
    let buffer = s.state.buffer ++ take ((new_len + 2 ^ 64 - current_len) % 2 ^ 64) points in
    let response = if leb target_len (capacity_of s) then ack else nak_full in
    let extended = record s { state = record s.state { buffer = buffer } } in
    (
      response,
      with_status extended
          (record (status_of extended) { buffer_fullness = length buffer % 2 ^ 16 }),
    )

unfoldable pub reply_data : LightEngine → Playback → List DacPoint → Shared → Reply
unfolding extend_buffer
reply_data ready prepared points s = extend_buffer points s
reply_data ready playing points s = extend_buffer points s
reply_data _ _ points s = (nak_invalid, s)

unfoldable pub set_idle : Shared → Reply
set_idle s = (ack, with_status s (record (status_of s) { playback = idle }))

unfoldable pub reply_stop : LightEngine → Playback → Shared → Reply
unfolding set_idle
reply_stop ready prepared s = set_idle s
reply_stop ready playing s = set_idle s
reply_stop _ _ s = (nak_invalid, s)

unfoldable pub reply_emergency_stop : Shared → Reply
reply_emergency_stop s = (
  ack,
  with_status s
      (record (status_of s) { light_engine = LightEngine.emergency_stop; playback = idle }),
)

unfoldable pub reply_clear_emergency_stop : LightEngine → Shared → Reply
reply_clear_emergency_stop ready s =
    (ack, with_status s (record (status_of s) { light_engine = ready }))
reply_clear_emergency_stop _ s = (nak_invalid, s)

-- The match on the command: the response and the new state.
unfoldable pub reply : Command → Shared → Reply
unfolding reply_prepare reply_begin reply_point_rate reply_data reply_stop reply_emergency_stop
    reply_clear_emergency_stop
reply (prepare_stream _) s = reply_prepare (status_of s).light_engine (status_of s).playback s
reply (begin c) s = reply_begin (status_of s).light_engine (status_of s).playback c.point_rate s
reply (point_rate c) s = reply_point_rate (status_of s).light_engine (status_of s).playback c.rate s
reply (data_points c) s = reply_data (status_of s).light_engine (status_of s).playback c.points s
reply (stop _) s = reply_stop (status_of s).light_engine (status_of s).playback s
reply (emergency_stop _) s = reply_emergency_stop s
reply (clear_emergency_stop _) s = reply_clear_emergency_stop (status_of s).light_engine s
reply (ping _) s = (ack, s)

-- The starting byte that the response echoes.
unfoldable pub echo_byte : Command → ℕ
echo_byte (prepare_stream _) = prepare_stream_start_byte
echo_byte (begin _) = begin_start_byte
echo_byte (point_rate _) = point_rate_start_byte
echo_byte (data_points _) = data_start_byte
echo_byte (stop _) = stop_start_byte
echo_byte (emergency_stop _) = emergency_stop_start_byte
echo_byte (clear_emergency_stop _) = clear_emergency_stop_start_byte
echo_byte (ping _) = ping_start_byte

unfoldable pub process_command : Command → Shared → DacResponse × Shared
unfolding reply echo_byte
process_command c s =
    let (response, after) = reply c s in
    (
      record {
        response = response;
        command = echo_byte c;
        dac_status = status_to_protocol (status_of after);
      },
      after,
    )

unfoldable pub process_interpreted_command : InterpretedCommand → Shared → DacResponse × Shared
unfolding process_command
process_interpreted_command (known c) s = process_command c s
process_interpreted_command (unknown start_byte) s = (
  record {
    response = nak_invalid;
    command = start_byte;
    dac_status = status_to_protocol (status_of s);
  },
  s,
)
