-- ===== src/Client/Submit.antt =====
-- `send_command`, `CommandQueue::submit` and `connect_inner` of ether-dream/src/dac/stream.rs.
use ether_dream.Base.{
  ℕ, ◌-◌, List, [], ◌∷◌, ◌++◌, length, take, drop, leb, ◌&&◌, if◌then◌else◌, Option, none, some,
  Result, ok, err, map_err, and_then,
}
use ether_dream.Io.{IoError}
use ether_dream.Io.Bytes.{Bytes}
use ether_dream.Io.Reader.{ReadBytesExt}
use ether_dream.Io.Writer.{WriteBytesExt, WriteToBytes, write_bytes}
use ether_dream.Protocol.{DacPoint, DacBroadcast, communication_port}
use ether_dream.Protocol.Command.{
  PrepareStream, Data, Stop, EmergencyStop, ClearEmergencyStop, Ping, prepare_stream_start_byte,
  begin_start_byte, point_rate_start_byte, data_start_byte, stop_start_byte,
  emergency_stop_start_byte, clear_emergency_stop_start_byte, ping_start_byte,
}
use ether_dream.Protocol.Command.Encode.{
  prepare_stream_to_bytes, begin_to_bytes, point_rate_to_bytes, data_to_bytes, stop_to_bytes,
  emergency_stop_to_bytes, clear_emergency_stop_to_bytes, ping_to_bytes,
}
use ether_dream.Dac.Bitflags.{Bitflags}
use ether_dream.Dac.Convert.{from_broadcast}
use ether_dream.Client.{
  Stream, CommandQueue, QueuedCommand, prepare_stream, begin, point_rate, data_range, stop,
  emergency_stop, clear_emergency_stop, ping, Range, CommunicationError, io, protocol,
}
use ether_dream.Client.Tcp.{TcpStream, write}
use ether_dream.Client.Response.{recv_response}

-- The outcome of sending: the buffer and the TCP stream are borrowed.
pub record Sender : Type 0 where
  pub bytes : Bytes
  pub tcp_stream : TcpStream

-- The result of `tcp_stream.write(bytes)?; Ok(())`.
abbrev written_result : Result IoError ℕ → Result IoError (Unit {0})
written_result (ok _) = ok tt
written_result (err e) = err e

-- The vector is cleared, and after a failed encoding it is empty: `Data` fails before its first byte.
-- The number of bytes that `write` took is not looked at.
unfoldable pub send_command :
    {C : Type 0} ⦃c : WriteToBytes Bytes C⦄ → C → TcpStream → Result IoError (Unit {0}) × Sender
send_command command tcp_stream = elim (write_bytes {W = Bytes} command []) [
  | err e ↦ (err e, record { bytes = []; tcp_stream = tcp_stream })
  | ok (_, bytes) ↦
      let (written, after) = write bytes tcp_stream in
      (written_result written, record { bytes = bytes; tcp_stream = after })
]

-- `&point_buffer[range]`; out of range the program panics.
unfoldable pub points_in : Range → List DacPoint → Option (List DacPoint)
points_in range points =
    if leb range.first range.past && leb range.past (length points)
    then some (take (range.past - range.first) (drop range.first points))
    else none

-- The starting byte to remember, if the command was sent.
abbrev sent_byte : ℕ → Result IoError (Unit {0}) → Result IoError ℕ
sent_byte start (ok _) = ok start
sent_byte start (err e) = err e

-- `Stream::send_command`, and `command_bytes.push`.
unfoldable pub send_with :
    {C : Type 0} ⦃c : WriteToBytes Bytes C⦄ → C → ℕ → Stream → Result IoError ℕ × Stream
send_with command start s =
    let (result, sender) = send_command command s.tcp_stream in
    (sent_byte start result, record s { bytes = sender.bytes; tcp_stream = sender.tcp_stream })

module _ ⦃w : WriteBytesExt Bytes⦄ where
  -- One round of the loop over the command buffer; `none` is a panic.
  unfoldable pub send_queued : QueuedCommand → Stream → Option (Result IoError ℕ × Stream)
  send_queued prepare_stream s =
      some (send_with PrepareStream.prepare_stream prepare_stream_start_byte s)
  send_queued (begin c) s = some (send_with c begin_start_byte s)
  send_queued (point_rate c) s = some (send_with c point_rate_start_byte s)
  send_queued (data_range range) s = elim (points_in range s.point_buffer) [
    | none ↦ none
    | some points ↦
        let data_command : Data = record { points = points } in
        some (send_with data_command data_start_byte s)
  ]
  send_queued stop s = some (send_with Stop.stop stop_start_byte s)
  send_queued emergency_stop s =
      some (send_with EmergencyStop.emergency_stop emergency_stop_start_byte s)
  send_queued clear_emergency_stop s =
      some (send_with ClearEmergencyStop.clear_emergency_stop clear_emergency_stop_start_byte s)
  send_queued ping s = some (send_with Ping.ping ping_start_byte s)

  -- The loop; `command_bytes` is what was pushed so far.
  unfoldable pub send_all :
      List QueuedCommand → List ℕ → Stream → Option (Result IoError (List ℕ) × Stream)
  send_all [] command_bytes s = some (ok command_bytes, s)
  send_all (c ∷ cs) command_bytes s = elim (send_queued c s) [
    | none ↦ none
    | some (err e, s') ↦ some (err e, s')
    | some (ok start, s') ↦ send_all cs (command_bytes ++ start ∷ []) s'
  ]

module _ ⦃f : Bitflags⦄ ⦃rd : ReadBytesExt Bytes⦄ where
  -- `Stream::recv_response`.
  unfoldable pub recv_into : ℕ → Stream → Result CommunicationError (Unit {0}) × Stream
  recv_into expected_command s =
      let (result, r) =
        recv_response expected_command
          (record { bytes = s.bytes; tcp_stream = s.tcp_stream; dac = s.dac }) in
      (result, record s { bytes = r.bytes; tcp_stream = r.tcp_stream; dac = r.dac })

  -- The loop over the starting bytes.
  unfoldable pub recv_all : List ℕ → Stream → Result CommunicationError (Unit {0}) × Stream
  recv_all [] s = (ok tt, s)
  recv_all (byte ∷ rest) s =
      let (result, s') = recv_into byte s in
      elim result [ err e ↦ (err e, s') | ok _ ↦ recv_all rest s' ]

  -- The command buffer is taken out of the stream, and put back empty.
  unfoldable pub submit :
      ⦃w : WriteBytesExt Bytes⦄
      → CommandQueue
      → Option (Result CommunicationError (Unit {0}) × Stream)
  submit self =
      elim (send_all self.stream.command_buffer [] (record self.stream { command_buffer = [] })) [
        | none ↦ none
        | some (err e, s) ↦ some (err (io e), s)
        | some (ok command_bytes, s) ↦ some (recv_all command_bytes s)
      ]

  -- Both ways to connect; `connect` and `set_nodelay` are the operating system's.
  unfoldable pub connect_inner :
      {Ip : Type 0}
      → DacBroadcast
      → Ip
      → (connect : Ip × ℕ → Result IoError TcpStream)
      → (set_nodelay : TcpStream → Result IoError (Unit {0})) → Result CommunicationError Stream
  connect_inner broadcast dac_ip connect set_nodelay =
      and_then (map_err protocol (from_broadcast broadcast)) λ dac.
        and_then (map_err io (connect (dac_ip, communication_port))) λ tcp_stream.
          and_then (map_err io (set_nodelay tcp_stream)) λ _.
            let (result, r) =
              recv_response ping_start_byte
                (record { bytes = []; tcp_stream = tcp_stream; dac = dac }) in
            and_then result λ _. ok (record {
              dac = r.dac;
              tcp_stream = r.tcp_stream;
              command_buffer = [];
              point_buffer = [];
              bytes = r.bytes;
            })
