-- ===== src/Emulator/Wire.antt =====
-- How the emulator reads the bytes that a client sends: one command at a time, with the rest left in
-- the stream.
use ether_dream.Base.{
  ◌⊎◌, ℕ, ◌+◌, ◌*◌, ◌≤◌, ◌<◌, ◌≡◌, ◌∙◌, refl, ap, arith, [], ◌∷◌, ◌++◌, length, lt→leb, false, none,
  some, ok,
}
use ether_dream.Io.Bytes.{Bytes, le_bytes, IsU16}
use ether_dream.Io.Reader.{ReadBytesExt, ReadsLittleEndian}
use ether_dream.Io.Slice.{slice_read}
use ether_dream.Protocol.{dac_point_size_bytes}
use ether_dream.Protocol.Command.{
  PrepareStream, Stop, EmergencyStop, ClearEmergencyStop, Ping, data_start_byte,
  emergency_stop_alt_start_byte,
}
use ether_dream.Protocol.Command.Layout.{data_bytes, begin_bytes, point_rate_bytes}
use ether_dream.Protocol.Command.Decode.{
  prepare_stream_from_bytes, begin_from_bytes, point_rate_from_bytes, data_from_bytes,
  stop_from_bytes, emergency_stop_from_bytes, clear_emergency_stop_from_bytes, ping_from_bytes,
}
use ether_dream.Protocol.Command.RoundTrip.{
  Reads-prepare_stream, Reads-begin, Reads-point_rate, Reads-stop, Reads-emergency_stop,
  Reads-clear_emergency_stop, Reads-ping,
}
use ether_dream.Dac.Command.RoundTrip.{IsCommand, command_bytes, is_start_byte}
use ether_dream.Client.Tcp.{TcpStream}
use ether_dream.Client.View.{start_byte}
use ether_dream.Emulator.{
  Command, prepare_stream, begin, point_rate, data_points, stop, emergency_stop,
  clear_emergency_stop, ping, unknown,
}
use ether_dream.Emulator.Process.{echo_byte}
use ether_dream.Emulator.Interpret.{Tcp, read_sized, read_by_start_byte, read_from_tcp_stream}
use ether_dream.Emulator.Reading.{
  Leaves, Interprets, read_from_tcp_stream-starts, read_data_command-counts,
  read_from_tcp_stream-arm, read_sized-arm, read_data-arm,
}

-- The emulator's own type of commands has the same constructors as the client's.
abbrev pub emulated : ether_dream.Dac.Command.Command → Command
emulated (ether_dream.Dac.Command.prepare_stream c) = prepare_stream c
emulated (ether_dream.Dac.Command.begin c) = begin c
emulated (ether_dream.Dac.Command.point_rate c) = point_rate c
emulated (ether_dream.Dac.Command.data_points c) = data_points c
emulated (ether_dream.Dac.Command.stop c) = stop c
emulated (ether_dream.Dac.Command.emergency_stop c) = emergency_stop c
emulated (ether_dream.Dac.Command.clear_emergency_stop c) = clear_emergency_stop c
emulated (ether_dream.Dac.Command.ping c) = ping c

-- The emulator answers with the starting byte that the client waits for.
pub echo_byte-emulated :
    (c : ether_dream.Dac.Command.Command) → echo_byte (emulated c) ≡ start_byte c
unfolding echo_byte
echo_byte-emulated (ether_dream.Dac.Command.prepare_stream c) = refl
echo_byte-emulated _ = refl

module _ ⦃r : ReadBytesExt Bytes⦄ where
  module _ (le : ReadsLittleEndian slice_read r) where
    -- If every byte has arrived, the incoming bytes start with the encoding of a command whose
    -- fields are in range, and the buffer is at least as long as that encoding: the emulator
    -- reads exactly that command, leaves the bytes behind it in the stream, sends nothing, and
    -- its buffer keeps its size.
    pub read_from_tcp_stream-known :
        (c : ether_dream.Dac.Command.Command) (t : Tcp) (rest : Bytes)
        → IsCommand c
        → t.peeks ≡ []
        → t.stream.incoming ≡ command_bytes c ++ rest
        → length (command_bytes c) ≤ length t.bytes
        → Interprets t rest (read_from_tcp_stream t) (emulated c)
    unfolding command_bytes read_by_start_byte le_bytes begin_bytes point_rate_bytes data_bytes
    read_from_tcp_stream-known (ether_dream.Dac.Command.prepare_stream PrepareStream.prepare_stream)
          t rest h free e fits =
        read_from_tcp_stream-arm t free e fits
          (read_sized-arm prepare_stream t rest (Reads-prepare_stream le) fits e)
    read_from_tcp_stream-known (ether_dream.Dac.Command.begin c) t rest h free e fits =
        read_from_tcp_stream-arm t free e (omega (arith, fits))
          (read_sized-arm begin t rest (Reads-begin le c h) fits e)
    read_from_tcp_stream-known (ether_dream.Dac.Command.point_rate c) t rest h free e fits =
        read_from_tcp_stream-arm t free e (omega (arith, fits))
          (read_sized-arm point_rate t rest (Reads-point_rate le c h) fits e)
    read_from_tcp_stream-known (ether_dream.Dac.Command.data_points c) t rest h free e fits =
        read_from_tcp_stream-arm t free e (omega (arith, fits))
          (read_data-arm le c t rest h free e fits)
    read_from_tcp_stream-known (ether_dream.Dac.Command.stop Stop.stop) t rest h free e fits =
        read_from_tcp_stream-arm t free e fits (read_sized-arm stop t rest (Reads-stop le) fits e)
    read_from_tcp_stream-known (ether_dream.Dac.Command.emergency_stop EmergencyStop.emergency_stop)
          t rest h free e fits =
        read_from_tcp_stream-arm t free e fits
          (read_sized-arm emergency_stop t rest (Reads-emergency_stop le) fits e)
    read_from_tcp_stream-known
          (ether_dream.Dac.Command.clear_emergency_stop ClearEmergencyStop.clear_emergency_stop) t
          rest h free e fits =
        read_from_tcp_stream-arm t free e fits
          (read_sized-arm clear_emergency_stop t rest (Reads-clear_emergency_stop le) fits e)
    read_from_tcp_stream-known (ether_dream.Dac.Command.ping Ping.ping) t rest h free e fits =
        read_from_tcp_stream-arm t free e fits (read_sized-arm ping t rest (Reads-ping le) fits e)

    -- If every byte has arrived, a first byte that starts no command, or the second starting byte
    -- of an emergency stop, 0xff, is reported as unknown and stays in the stream with all that
    -- follows.
    pub read_from_tcp_stream-unknown :
        (t : Tcp) (b : ℕ) (more : Bytes)
        → t.peeks ≡ []
        → t.stream.incoming ≡ b ∷ more
        → 1 ≤ length t.bytes
        → (is_start_byte b ≡ false) ⊎ (b ≡ emergency_stop_alt_start_byte)
        → (after : Tcp) × (read_from_tcp_stream t ≡ some (ok (unknown b), after))
          × Leaves t t.stream.incoming after
    unfolding read_by_start_byte
    read_from_tcp_stream-unknown t b more free e fits strange =
        let (seen, starts, l) = read_from_tcp_stream-starts t b more free e fits in
        let reported : read_by_start_byte b seen ≡ some (ok (unknown b), seen) = ground arith in
        (seen, starts ∙ reported, l)

    -- If every byte has arrived, a `Data` command whose number of points needs more bytes than
    -- the emulator's buffer has, which is at least three, makes the emulator panic.
    pub read_from_tcp_stream-oversized :
        (t : Tcp) (n : ℕ) (more : Bytes)
        → t.peeks ≡ []
        → IsU16 n
        → t.stream.incoming ≡ data_start_byte ∷ le_bytes 2 n ++ more
        → 3 ≤ length t.bytes
        → length t.bytes < 3 + n * dac_point_size_bytes
        → read_from_tcp_stream t ≡ none
    unfolding read_by_start_byte read_sized
    read_from_tcp_stream-oversized t n more free h e fits over =
        let (seen, starts, l) =
          read_from_tcp_stream-starts t data_start_byte (le_bytes 2 n ++ more) free e
            (omega arith) in
        let (counted, counts, l') =
          read_data_command-counts le seen data_start_byte n more (l.peeks ∙ free) h
            (ap (λ (s : TcpStream). s.incoming) l.stream ∙ e) (omega (arith, l.size)) in
        let small : length counted.bytes < 1 + 2 + n * dac_point_size_bytes =
          omega (arith, l.size, l'.size, over) in
        starts ∙ counts ∙ rw (lt→leb _ _ small) refl
