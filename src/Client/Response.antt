-- ===== src/Client/Response.antt =====
-- `DacResponse::check_errors`, `Nak` and `recv_response` of ether-dream/src/dac/stream.rs.
use ether_dream.Base.{
  ℕ, ◌++◌, length, take, replicate, ◌-◌, ◌==◌, not, if◌then◌else◌, Option, none, some, Result, ok,
  err, map_err,
}
use ether_dream.Io.{IoError}
use ether_dream.Io.Bytes.{Bytes}
use ether_dream.Io.Reader.{ReadBytesExt, read_bytes}
use ether_dream.Protocol.{
  DacStatus, DacResponse, nak_full, nak_invalid, nak_stop_condition, dac_response_size_bytes,
}
use ether_dream.Protocol.Decode.{dac_response_from_bytes}
use ether_dream.Dac.{Addressed}
use ether_dream.Dac.Bitflags.{Bitflags}
use ether_dream.Dac.Convert.{update_status}
use ether_dream.Client.{
  Nak, full, invalid, stop_condition, unexpected_command, nak, ResponseError, CommunicationError,
  io, protocol, response,
}
use ether_dream.Client.Tcp.{TcpStream, read_exact}

unfoldable pub nak_from_protocol : ℕ → Option Nak
nak_from_protocol b =
    if b == nak_full
    then some full
    else if b == nak_invalid
    then some invalid
    else if b == nak_stop_condition
    then some stop_condition
    else none

unfoldable pub nak_to_protocol : Nak → ℕ
nak_to_protocol full = nak_full
nak_to_protocol invalid = nak_invalid
nak_to_protocol stop_condition = nak_stop_condition

unfoldable pub check_errors : DacResponse → ℕ → Result ResponseError (Unit {0})
unfolding nak_from_protocol
check_errors self expected_command =
    if not (self.command == expected_command)
    then err (record { response = self; kind = unexpected_command self.command })
    else elim (nak_from_protocol self.response) [
      | some n ↦ err (record { response = self; kind = nak n })
      | none ↦ ok tt
    ]

-- `Vec::resize(n, 0)`.
abbrev pub resize : ℕ → Bytes → Bytes
resize n bs = take n (bs ++ replicate (n - length bs) 0)

-- The buffer, the TCP stream and the DAC, which the function borrows.
pub record Receiver : Type 0 where
  pub bytes : Bytes
  pub tcp_stream : TcpStream
  pub dac : Addressed

module _ ⦃f : Bitflags⦄ where
  -- The update of the DAC at the end.
  unfoldable pub accept_status :
      Receiver → DacStatus → Result CommunicationError (Unit {0}) × Receiver
  accept_status r status =
      let (result, dac) = update_status r.dac.dac status in
      (map_err protocol result, record r { dac = record r.dac { dac = dac } })

  -- From the check of the response on.
  unfoldable pub handle_response :
      ℕ → Receiver → DacResponse → Result CommunicationError (Unit {0}) × Receiver
  unfolding accept_status check_errors
  handle_response expected_command r d = elim (check_errors d expected_command) [
    | err e ↦ (err (response e), r)
    | ok _ ↦ accept_status r d.dac_status
  ]

  module _ ⦃rd : ReadBytesExt Bytes⦄ where
    -- From the end of `read_exact(bytes)` on.
    unfoldable pub received :
        ℕ
        → Receiver
        → Result IoError Bytes × TcpStream
        → Result CommunicationError (Unit {0}) × Receiver
    received expected_command r (err e, tcp_stream) =
        (err (io e), record r { tcp_stream = tcp_stream })
    received expected_command r (ok bytes, tcp_stream) =
        let after = record r { bytes = bytes; tcp_stream = tcp_stream } in
        elim (read_bytes {P = DacResponse} bytes) [
          | err e ↦ (err (io e), after)
          | ok (d, _) ↦ handle_response expected_command after d
        ]

    unfoldable pub recv_response : ℕ → Receiver → Result CommunicationError (Unit {0}) × Receiver
    unfolding received
    recv_response expected_command r =
        let buffer = resize dac_response_size_bytes r.bytes in
        received expected_command (record r { bytes = buffer })
          (read_exact (length buffer) r.tcp_stream)
