-- ===== src/Emulator/Invariant.antt =====
-- What holds of the shared state after every command.
use ether_dream.Base.{
  ℕ, ◌+◌, ◌-◌, ◌%◌, ◌^◌, ◌≤◌, ◌<◌, min, ◌≡◌, ◌≢◌, arith, List, length, length-append, length-take,
  take,
}
use ether_dream.Protocol.{DacPoint}
use ether_dream.Dac.{ready, idle}
use ether_dream.Emulator.{
  Shared, Command, prepare_stream, begin, point_rate, data_points, stop, emergency_stop,
  clear_emergency_stop, ping, InterpretedCommand, known, unknown,
}
use ether_dream.Emulator.Process.{
  status_of, capacity_of, reply, extend_buffer, process_interpreted_command,
}

-- The buffer never holds more than the capacity, a `u16`; the status counts it exactly; and unless
-- playback is idle, the light engine is ready.
pub record IsSound (s : Shared) : Type 0 where
  pub capacity : capacity_of s < 2 ^ 16
  pub bounded : length s.state.buffer ≤ capacity_of s
  pub counted : (status_of s).buffer_fullness ≡ length s.state.buffer
  pub engine : (status_of s).playback ≢ idle → (status_of s).light_engine ≡ ready

-- How many of the new points fit.
abbrev pub room : Shared → ℕ
room s = capacity_of s - length s.state.buffer

extend_buffer-length :
    (points : List DacPoint) (s : Shared)
    → IsSound s
    → length (extend_buffer points s).1.state.buffer
      ≡ min (length s.state.buffer + length points) (capacity_of s)
unfolding extend_buffer
extend_buffer-length points s h =
    let current_len = length s.state.buffer in
    let new_len = min (current_len + length points) (capacity_of s) in
    omega (
      arith,
      h.capacity,
      h.bounded,
      length-append s.state.buffer (take ((new_len + 2 ^ 64 - current_len) % 2 ^ 64) points),
      length-take ((new_len + 2 ^ 64 - current_len) % 2 ^ 64) points,
    )

pub extend_buffer-IsSound :
    (points : List DacPoint) (s : Shared) → IsSound s → IsSound (extend_buffer points s).1
unfolding extend_buffer
extend_buffer-IsSound points s h = record {
  capacity = h.capacity;
  bounded = omega (arith, extend_buffer-length points s h);
  counted = omega (arith, h.capacity, extend_buffer-length points s h);
  engine = h.engine;
}

pub reply-IsSound : (c : Command) (s : Shared) → IsSound s → IsSound (reply c s).1
unfolding reply
reply-IsSound (prepare_stream c) s h = ground arith
reply-IsSound (begin c) s h = ground arith
reply-IsSound (point_rate c) s h = ground arith
reply-IsSound (data_points c) s h = ground (arith, extend_buffer-IsSound c.points s h)
reply-IsSound (stop c) s h = ground arith
reply-IsSound (emergency_stop c) s h = ground arith
reply-IsSound (clear_emergency_stop c) s h = ground arith
reply-IsSound (ping c) s h = h

-- A command, known or not, keeps the state sound: if before it the capacity is a `u16`, the
-- buffer holds no more points than the capacity, the status counts them exactly, and the light
-- engine is ready unless playback is idle, then the same holds after it.
pub process_interpreted_command-IsSound :
    (c : InterpretedCommand) (s : Shared) → IsSound s → IsSound (process_interpreted_command c s).1
unfolding process_interpreted_command
process_interpreted_command-IsSound (known c) s h = reply-IsSound c s h
process_interpreted_command-IsSound (unknown b) s h = h
