-- ===== src/Dac/Command/RoundTrip.antt =====
-- The command of run-time kind on the wire.
use ether_dream.Base.{ℕ, ◌≡◌, arith, ◌∷◌, Bool, false, ◌==◌, ◌||◌}
use ether_dream.Io.{err, invalid_data, raise, ◌>>=◌}
use ether_dream.Io.Bytes.{Bytes, IsByte}
use ether_dream.Io.Reader.{ReadBytesExt, ReadsLittleEndian}
use ether_dream.Io.Writer.{Write, WriteBytesExt, WritesLittleEndian}
use ether_dream.Io.Slice.{slice_read}
use ether_dream.Io.Codec.{Reads, Reads-pure, read_u8-cons, Reads-u8_then, Reads-map, Writes}
use ether_dream.Protocol.Command.{
  PrepareStream, Stop, EmergencyStop, ClearEmergencyStop, Ping, prepare_stream_start_byte,
  stop_start_byte, emergency_stop_start_byte, emergency_stop_alt_start_byte,
  clear_emergency_stop_start_byte, ping_start_byte,
}
use ether_dream.Protocol.Command.Layout.{
  lone_byte, begin_bytes, point_rate_bytes, data_bytes, IsBegin, IsPointRate, IsData,
}
use ether_dream.Protocol.Command.RoundTrip.{
  Reads-begin_fields, Reads-point_rate_fields, Reads-data_fields, Writes-prepare_stream,
  Writes-begin, Writes-point_rate, Writes-data, Writes-stop, Writes-emergency_stop,
  Writes-clear_emergency_stop, Writes-ping,
}
use ether_dream.Dac.Command.{
  Command, prepare_stream, begin, point_rate, data_points, stop, emergency_stop,
  clear_emergency_stop, ping, read_command_kind, read_command, write_command,
}

abbrev pub IsCommand : Command → Type 0
IsCommand (begin c) = IsBegin c
IsCommand (point_rate c) = IsPointRate c
IsCommand (data_points c) = IsData c
IsCommand _ = Unit {0}

unfoldable pub command_bytes : Command → Bytes
command_bytes (prepare_stream _) = lone_byte prepare_stream_start_byte
command_bytes (begin c) = begin_bytes c
command_bytes (point_rate c) = point_rate_bytes c
command_bytes (data_points c) = data_bytes c
command_bytes (stop _) = lone_byte stop_start_byte
command_bytes (emergency_stop _) = lone_byte emergency_stop_start_byte
command_bytes (clear_emergency_stop _) = lone_byte clear_emergency_stop_start_byte
command_bytes (ping _) = lone_byte ping_start_byte

-- The starting bytes of the protocol.
abbrev pub is_start_byte : ℕ → Bool
is_start_byte b =
    b == 0x70
    || (b == 0x62
        || (b == 0x74
            || (b == 0x64
                || (b == 0x73 || (b == 0x00 || (b == 0xff || (b == 0x63 || b == 0x3f)))))))

read_command_kind_unknown :
    {R : Type 0} ⦃r : ReadBytesExt R⦄ (b : ℕ) (s : R)
    → is_start_byte b ≡ false
    → read_command_kind b s ≡ err invalid_data
unfolding read_command_kind raise
read_command_kind_unknown b s h = ground arith

module _ ⦃r : ReadBytesExt Bytes⦄ (le : ReadsLittleEndian slice_read r) where
  pub Reads-command : (c : Command) → IsCommand c → Reads read_command (command_bytes c) c
  unfolding read_command read_command_kind command_bytes begin_bytes point_rate_bytes data_bytes
  Reads-command (prepare_stream PrepareStream.prepare_stream) h =
      Reads-u8_then le _ (omega arith) (Reads-pure _)
  Reads-command (begin c) h =
      Reads-u8_then le _ (omega arith) (Reads-map _ begin (Reads-begin_fields le c h))
  Reads-command (point_rate c) h =
      Reads-u8_then le _ (omega arith) (Reads-map _ point_rate (Reads-point_rate_fields le c h))
  Reads-command (data_points c) h =
      Reads-u8_then le _ (omega arith) (Reads-map _ data_points (Reads-data_fields le c h))
  Reads-command (stop Stop.stop) h = Reads-u8_then le _ (omega arith) (Reads-pure _)
  Reads-command (emergency_stop EmergencyStop.emergency_stop) h =
      Reads-u8_then le _ (omega arith) (Reads-pure _)
  Reads-command (clear_emergency_stop ClearEmergencyStop.clear_emergency_stop) h =
      Reads-u8_then le _ (omega arith) (Reads-pure _)
  Reads-command (ping Ping.ping) h = Reads-u8_then le _ (omega arith) (Reads-pure _)

  -- The other starting byte of the emergency stop is read as the same command.
  pub Reads-command_alt :
      Reads read_command
        (lone_byte emergency_stop_alt_start_byte)
        (emergency_stop EmergencyStop.emergency_stop)
  unfolding read_command read_command_kind
  Reads-command_alt = Reads-u8_then le _ (omega arith) (Reads-pure _)

  -- Reading a command whose first byte starts none fails with `InvalidData`, whatever follows;
  -- the `byteorder` methods being little endian as documented.
  pub read_command_unknown :
      (b : ℕ) (rest : Bytes)
      → IsByte b
      → is_start_byte b ≡ false
      → read_command (b ∷ rest) ≡ err invalid_data
  unfolding read_command ◌>>=◌
  read_command_unknown b rest h unknown =
      rw (read_u8-cons le b rest h) (read_command_kind_unknown b rest unknown)

module _ {W : Type 0} {sink : Write W} ⦃w : WriteBytesExt W⦄ (le : WritesLittleEndian sink w) where
  pub Writes-command : (c : Command) → IsCommand c → Writes sink (write_command c) (command_bytes c)
  unfolding write_command command_bytes
  Writes-command (prepare_stream c) h = Writes-prepare_stream le c
  Writes-command (begin c) h = Writes-begin le c
  Writes-command (point_rate c) h = Writes-point_rate le c
  Writes-command (data_points c) h = Writes-data le c h.count
  Writes-command (stop c) h = Writes-stop le c
  Writes-command (emergency_stop c) h = Writes-emergency_stop le c
  Writes-command (clear_emergency_stop c) h = Writes-clear_emergency_stop le c
  Writes-command (ping c) h = Writes-ping le c
