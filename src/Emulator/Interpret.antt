-- ===== src/Emulator/Interpret.antt =====
-- `InterpretedCommand::read_from_tcp_stream` and `read_command_via_tcp_and_respond` of
-- dac-emulator/src/stream.rs. A panic gives `none`.
pub mod Buffer
pub mod Carried
pub mod Total
pub mod Responding
use ether_dream.Base.{
  ℕ, zero, suc, ◌+◌, ◌*◌, ◌==◌, min, List, [], ◌∷◌, ◌++◌, length, take, drop, leb, if◌then◌else◌,
  Option, none, some, Result, ok, err,
}
use ether_dream.Io.{IoError, invalid_data}
use ether_dream.Io.Bytes.{Bytes}
use ether_dream.Io.Reader.{ReadBytesExt, ReadFromBytes, read_bytes}
use ether_dream.Io.Writer.{WriteBytesExt, write_bytes}
use ether_dream.Io.Slice.{SliceMut, contents}
use ether_dream.Protocol.{DacResponse, dac_point_size_bytes, dac_response_size_bytes}
use ether_dream.Protocol.Encode.{dac_response_to_bytes}
use ether_dream.Protocol.Command.{
  PrepareStream, Begin, PointRate, Data, Stop, EmergencyStop, ClearEmergencyStop, Ping,
  prepare_stream_start_byte, begin_start_byte, point_rate_start_byte, data_start_byte,
  stop_start_byte, emergency_stop_start_byte, clear_emergency_stop_start_byte, ping_start_byte,
  prepare_stream_size_bytes, begin_size_bytes, point_rate_size_bytes, stop_size_bytes,
  emergency_stop_size_bytes, clear_emergency_stop_size_bytes, ping_size_bytes,
}
use ether_dream.Protocol.Command.Decode.{
  read_n_points, prepare_stream_from_bytes, begin_from_bytes, point_rate_from_bytes,
  data_from_bytes, stop_from_bytes, emergency_stop_from_bytes, clear_emergency_stop_from_bytes,
  ping_from_bytes,
}
use ether_dream.Client.Tcp.{TcpStream, read_exact, write}
use ether_dream.Emulator.{
  Shared, Command, prepare_stream, begin, point_rate, data_points, stop, emergency_stop,
  clear_emergency_stop, ping, InterpretedCommand, known, unknown,
}
use ether_dream.Emulator.Process.{process_interpreted_command}

-- What a call of `peek` meets: so many bytes have arrived, or the call fails.
pub data PeekOutcome : Type 0 where
  arrived : ℕ → PeekOutcome
  refuses : IoError → PeekOutcome

-- The stream and the buffer that it is read into. `peeks` is the fate of the next calls of `peek`;
-- past its end every byte has arrived.
pub record Tcp : Type 0 where
  pub stream : TcpStream
  pub peeks : List PeekOutcome
  pub bytes : Bytes

-- `&mut bytes[..n]` filled with `xs` from the front.
abbrev pub overwrite : Bytes → Bytes → Bytes
overwrite xs bytes = xs ++ drop (length xs) bytes

peek_with : PeekOutcome → ℕ → Tcp → Result IoError ℕ × Tcp
peek_with (arrived m) n t =
    let seen = take (min n m) t.stream.incoming in
    (ok (length seen), record t { bytes = overwrite seen t.bytes })
peek_with (refuses e) n t = (err e, t)

next_peek : List PeekOutcome → ℕ → Tcp → Result IoError ℕ × Tcp
unfolding peek_with
next_peek [] n t = peek_with (arrived n) n t
next_peek (o ∷ os) n t = peek_with o n (record t { peeks = os })

-- `peek(&mut bytes[..n])`: the bytes stay in the stream.
unfoldable pub peek : ℕ → Tcp → Result IoError ℕ × Tcp
unfolding next_peek
peek n t = next_peek t.peeks n t

-- A result, with what is left of the stream and the buffer.
abbrev pub Interpretation : Type 0
Interpretation = Option (Result IoError InterpretedCommand × Tcp)

module _ ⦃r : ReadBytesExt Bytes⦄ where
  module _ {P : Type 0} ⦃p : ReadFromBytes Bytes P⦄ (wrap : P → Command) where
    -- From the end of `read_exact` on: the whole buffer is given to `read_bytes`.
    unfoldable pub parsed :
        Tcp → Result IoError Bytes × TcpStream → Result IoError InterpretedCommand × Tcp
    parsed t (err e, s) = (err e, record t { stream = s })
    parsed t (ok xs, s) =
        let bytes = overwrite xs t.bytes in
        let after = record t { stream = s; bytes = bytes } in
        elim (read_bytes {P = P} bytes) [
          | err e ↦ (err e, after)
          | ok (c, _) ↦ (ok (known (wrap c)), after)
        ]

    -- `read_exact(&mut bytes[..n])`, whose slice must be inside the buffer, and what follows.
    unfoldable pub read_sized : ℕ → Tcp → Interpretation
    unfolding parsed
    read_sized n t =
        if leb n (length t.bytes) then some (parsed t (read_exact n t.stream)) else none

  -- The arm of `Data`, once the number of points is read.
  unfoldable pub read_data_sized : Result IoError (ℕ × Bytes) → Tcp → Interpretation
  read_data_sized (err e) t = some (err e, t)
  read_data_sized (ok (n_points, _)) t =
      read_sized {P = Data} data_points (1 + 2 + n_points * dac_point_size_bytes) t

  read_data_peeked : Result IoError ℕ × Tcp → Interpretation
  unfolding read_data_sized
  read_data_peeked (err e, t) = some (err e, t)
  read_data_peeked (ok _, t) = read_data_sized (read_n_points (take 2 (drop 1 t.bytes))) t

  -- The arm of `Data`: what the second `peek` returns is not looked at.
  unfoldable pub read_data_command : Tcp → Interpretation
  unfolding read_data_peeked
  read_data_command t = if leb 3 (length t.bytes) then read_data_peeked (peek 3 t) else none

  -- The match on the first byte.
  unfoldable pub read_by_start_byte : ℕ → Tcp → Interpretation
  unfolding read_data_command
  read_by_start_byte start_byte t =
      if start_byte == prepare_stream_start_byte
      then read_sized {P = PrepareStream} prepare_stream prepare_stream_size_bytes t
      else if start_byte == begin_start_byte
      then read_sized {P = Begin} begin begin_size_bytes t
      else if start_byte == point_rate_start_byte
      then read_sized {P = PointRate} point_rate point_rate_size_bytes t
      else if start_byte == data_start_byte
      then read_data_command t
      else if start_byte == stop_start_byte
      then read_sized {P = Stop} stop stop_size_bytes t
      else if start_byte == emergency_stop_start_byte
      then read_sized {P = EmergencyStop} emergency_stop emergency_stop_size_bytes t
      else if start_byte == clear_emergency_stop_start_byte
      then read_sized {P = ClearEmergencyStop} clear_emergency_stop clear_emergency_stop_size_bytes
          t
      else if start_byte == ping_start_byte
      then read_sized {P = Ping} ping ping_size_bytes t
      else some (ok (unknown start_byte), t)

  first_byte : Bytes → Tcp → Interpretation
  unfolding read_by_start_byte
  first_byte [] t = none
  first_byte (start_byte ∷ _) t = read_by_start_byte start_byte t

  peeked_first : Result IoError ℕ × Tcp → Interpretation
  unfolding first_byte
  peeked_first (err e, t) = some (err e, t)
  peeked_first (ok zero, t) = some (err invalid_data, t)
  peeked_first (ok (suc _), t) = first_byte t.bytes t

  unfoldable pub read_from_tcp_stream : Tcp → Interpretation
  unfolding peeked_first
  read_from_tcp_stream t =
      if leb 1 (length t.bytes)
      then peeked_first (peek 1 (record t { bytes = overwrite (0 ∷ []) t.bytes }))
      else none

module _ ⦃w : WriteBytesExt SliceMut⦄ where
  written : Tcp → Result IoError ℕ × TcpStream → Result IoError (Unit {0}) × Tcp
  written t (ok _, s) = (ok tt, record t { stream = s })
  written t (err e, s) = (err e, record t { stream = s })

  -- The response goes through the buffer; a buffer that is too short for it panics.
  unfoldable pub respond : DacResponse → Tcp → Option (Result IoError (Unit {0}) × Tcp)
  unfolding written
  respond dac_response t =
      if leb dac_response_size_bytes (length t.bytes)
      then elim (write_bytes {W = SliceMut} dac_response
          (record { written = []; left = take dac_response_size_bytes t.bytes })) [
            | err e ↦ some (err e, t)
            | ok (_, slice) ↦
                let bytes = overwrite (contents slice) t.bytes in
                some (
                  written (record t { bytes = bytes })
                    (write (take dac_response_size_bytes bytes) t.stream))
          ]
      else none

  unfoldable pub after_response :
      Shared
      → Option (Result IoError (Unit {0}) × Tcp)
      → Option (Result IoError (Unit {0}) × Shared × Tcp)
  after_response s none = none
  after_response s (some (result, t)) = some (result, s, t)

  unfoldable pub after_command :
      Shared → Interpretation → Option (Result IoError (Unit {0}) × Shared × Tcp)
  unfolding after_response
  after_command s none = none
  after_command s (some (err e, t)) = some (err e, s, t)
  after_command s (some (ok c, t)) =
      let (dac_response, after) = process_interpreted_command c s in
      after_response after (respond dac_response t)

  unfoldable pub read_command_via_tcp_and_respond :
      ⦃r : ReadBytesExt Bytes⦄ → Shared → Tcp → Option (Result IoError (Unit {0}) × Shared × Tcp)
  unfolding after_command
  read_command_via_tcp_and_respond s t = after_command s (read_from_tcp_stream t)
