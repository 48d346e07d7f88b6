-- ===== src/Dac/Command.antt =====
-- `dac::Command` of ether-dream/src/dac/mod.rs: a command whose kind is determined at run time.
pub mod RoundTrip
pub mod Spelling
use ether_dream.Base.{ℕ, ◌==◌, if◌then◌else◌}
use ether_dream.Io.{Io, pure, raise, invalid_data, ◌>>=◌}
use ether_dream.Io.Reader.{ReadBytesExt, read_u8, ReadFromBytes}
use ether_dream.Io.Writer.{WriteBytesExt, WriteToBytes}
use ether_dream.Protocol.Command.{
  PrepareStream, Begin, PointRate, Data, Stop, EmergencyStop, EmergencyStopAlt, ClearEmergencyStop,
  Ping, prepare_stream_start_byte, begin_start_byte, point_rate_start_byte, data_start_byte,
  stop_start_byte, emergency_stop_start_byte, emergency_stop_alt_start_byte,
  clear_emergency_stop_start_byte, ping_start_byte,
}
use ether_dream.Protocol.Command.Encode.{
  write_prepare_stream, write_begin, write_point_rate, write_data, write_stop, write_emergency_stop,
  write_clear_emergency_stop, write_ping,
}
use ether_dream.Protocol.Command.Decode.{
  read_begin_fields, read_point_rate_fields, read_data_fields,
}

pub data Command : Type 0 where
  prepare_stream : PrepareStream → Command
  begin : Begin → Command
  point_rate : PointRate → Command
  data_points : Data → Command
  stop : Stop → Command
  emergency_stop : EmergencyStop → Command
  clear_emergency_stop : ClearEmergencyStop → Command
  ping : Ping → Command

-- The implementations of `From`.
abbrev pub command_from_prepare_stream : PrepareStream → Command
command_from_prepare_stream c = prepare_stream c

abbrev pub command_from_begin : Begin → Command
command_from_begin c = begin c

abbrev pub command_from_point_rate : PointRate → Command
command_from_point_rate c = point_rate c

abbrev pub command_from_data : Data → Command
command_from_data c = data_points c

abbrev pub command_from_stop : Stop → Command
command_from_stop c = stop c

abbrev pub command_from_emergency_stop : EmergencyStop → Command
command_from_emergency_stop c = emergency_stop c

abbrev pub command_from_emergency_stop_alt : EmergencyStopAlt → Command
command_from_emergency_stop_alt _ = emergency_stop EmergencyStop.emergency_stop

abbrev pub command_from_clear_emergency_stop : ClearEmergencyStop → Command
command_from_clear_emergency_stop c = clear_emergency_stop c

abbrev pub command_from_ping : Ping → Command
command_from_ping c = ping c

module _ {R : Type 0} ⦃r : ReadBytesExt R⦄ where
  -- The match on the starting byte.
  unfoldable pub read_command_kind : ℕ → Io R Command
  unfolding read_begin_fields read_point_rate_fields read_data_fields
  read_command_kind command =
      if command == prepare_stream_start_byte
      then pure (command_from_prepare_stream PrepareStream.prepare_stream)
      else if command == begin_start_byte
      then (do c ← read_begin_fields; pure (command_from_begin c))
      else if command == point_rate_start_byte
      then (do c ← read_point_rate_fields; pure (command_from_point_rate c))
      else if command == data_start_byte
      then (do c ← read_data_fields; pure (command_from_data c))
      else if command == stop_start_byte
      then pure (command_from_stop Stop.stop)
      else if command == emergency_stop_start_byte
      then pure (command_from_emergency_stop EmergencyStop.emergency_stop)
      else if command == emergency_stop_alt_start_byte
      then pure (command_from_emergency_stop EmergencyStop.emergency_stop)
      else if command == clear_emergency_stop_start_byte
      then pure (command_from_clear_emergency_stop ClearEmergencyStop.clear_emergency_stop)
      else if command == ping_start_byte
      then pure (command_from_ping Ping.ping)
      else raise invalid_data

  unfoldable pub read_command : Io R Command
  read_command = do command ← read_u8; read_command_kind command

  instance abbrev pub command_from_bytes : ReadFromBytes R Command
  command_from_bytes = record { read_from_bytes = read_command }

module _ {W : Type 0} ⦃w : WriteBytesExt W⦄ where
  unfoldable pub write_command : Command → Io W (Unit {0})
  write_command (prepare_stream c) = write_prepare_stream c
  write_command (begin c) = write_begin c
  write_command (point_rate c) = write_point_rate c
  write_command (data_points c) = write_data c
  write_command (stop c) = write_stop c
  write_command (emergency_stop c) = write_emergency_stop c
  write_command (clear_emergency_stop c) = write_clear_emergency_stop c
  write_command (ping c) = write_ping c

  instance abbrev pub command_to_bytes : WriteToBytes W Command
  command_to_bytes = record { write_to_bytes = write_command }
