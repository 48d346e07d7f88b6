-- ===== src/Protocol/Command/Encode.antt =====
-- `WriteToBytes` for the commands of ether-dream/src/protocol.rs.
use ether_dream.Base.{◌%◌, ◌^◌, List, [], ◌∷◌, ltb, if◌then◌else◌, length}
use ether_dream.Io.{Io, pure, raise, invalid_data, ◌>>◌}
use ether_dream.Io.Writer.{WriteBytesExt, write_u8, write_u16, write_u32, WriteToBytes, write_bytes}
use ether_dream.Protocol.{DacPoint}
use ether_dream.Protocol.Encode.{dac_point_to_bytes}
use ether_dream.Protocol.Command.{
  PrepareStream, Begin, PointRate, Data, Stop, EmergencyStop, EmergencyStopAlt, ClearEmergencyStop,
  Ping, prepare_stream_start_byte, begin_start_byte, point_rate_start_byte, data_start_byte,
  stop_start_byte, emergency_stop_start_byte, emergency_stop_alt_start_byte,
  clear_emergency_stop_start_byte, ping_start_byte, u16_max,
}

module _ {W : Type 0} ⦃w : WriteBytesExt W⦄ where
  unfoldable pub write_prepare_stream : PrepareStream → Io W (Unit {0})
  write_prepare_stream _ = do write_u8 prepare_stream_start_byte; pure tt

  unfoldable pub write_begin : Begin → Io W (Unit {0})
  write_begin c = do
    write_u8 begin_start_byte
    write_u16 c.low_water_mark
    write_u32 c.point_rate
    pure tt

  unfoldable pub write_point_rate : PointRate → Io W (Unit {0})
  write_point_rate c = do write_u8 point_rate_start_byte; write_u32 c.rate; pure tt

  -- The loop over the points.
  unfoldable pub write_points : List DacPoint → Io W (Unit {0})
  write_points [] = pure tt
  write_points (point ∷ points) = do write_bytes point; write_points points

  unfoldable pub write_data : Data → Io W (Unit {0})
  write_data c =
      if ltb u16_max (length c.points)
      then raise invalid_data
      else do write_u8 data_start_byte; write_u16 (length c.points % 2 ^ 16); write_points c.points

  unfoldable pub write_stop : Stop → Io W (Unit {0})
  write_stop _ = do write_u8 stop_start_byte; pure tt

  unfoldable pub write_emergency_stop : EmergencyStop → Io W (Unit {0})
  write_emergency_stop _ = do write_u8 emergency_stop_start_byte; pure tt

  unfoldable pub write_emergency_stop_alt : EmergencyStopAlt → Io W (Unit {0})
  write_emergency_stop_alt _ = do write_u8 emergency_stop_alt_start_byte; pure tt

  unfoldable pub write_clear_emergency_stop : ClearEmergencyStop → Io W (Unit {0})
  write_clear_emergency_stop _ = do write_u8 clear_emergency_stop_start_byte; pure tt

  unfoldable pub write_ping : Ping → Io W (Unit {0})
  write_ping _ = do write_u8 ping_start_byte; pure tt

  instance abbrev pub prepare_stream_to_bytes : WriteToBytes W PrepareStream
  prepare_stream_to_bytes = record { write_to_bytes = write_prepare_stream }

  instance abbrev pub begin_to_bytes : WriteToBytes W Begin
  begin_to_bytes = record { write_to_bytes = write_begin }

  instance abbrev pub point_rate_to_bytes : WriteToBytes W PointRate
  point_rate_to_bytes = record { write_to_bytes = write_point_rate }

  instance abbrev pub data_to_bytes : WriteToBytes W Data
  data_to_bytes = record { write_to_bytes = write_data }

  instance abbrev pub stop_to_bytes : WriteToBytes W Stop
  stop_to_bytes = record { write_to_bytes = write_stop }

  instance abbrev pub emergency_stop_to_bytes : WriteToBytes W EmergencyStop
  emergency_stop_to_bytes = record { write_to_bytes = write_emergency_stop }

  instance abbrev pub emergency_stop_alt_to_bytes : WriteToBytes W EmergencyStopAlt
  emergency_stop_alt_to_bytes = record { write_to_bytes = write_emergency_stop_alt }

  instance abbrev pub clear_emergency_stop_to_bytes : WriteToBytes W ClearEmergencyStop
  clear_emergency_stop_to_bytes = record { write_to_bytes = write_clear_emergency_stop }

  instance abbrev pub ping_to_bytes : WriteToBytes W Ping
  ping_to_bytes = record { write_to_bytes = write_ping }
