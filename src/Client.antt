-- ===== src/Client.antt =====
-- ether-dream/src/dac/stream.rs: the client's side of the connection. The children hold the TCP
-- stream, the queue of commands, their submission and the check of the responses.
pub mod Tcp
pub mod Response
pub mod Queue
pub mod Submit
pub mod View
pub mod Building
pub mod Sending
pub mod Receiving
pub mod Submission
pub mod Discovery
pub mod Connect
pub mod Options
pub mod Message
use ether_dream.Base.{ℕ, List}
use ether_dream.Io.{IoError}
use ether_dream.Io.Bytes.{Bytes}
use ether_dream.Protocol.{DacPoint, DacResponse}
use ether_dream.Protocol.Command.{Begin, PointRate}
use ether_dream.Dac.{Addressed, ProtocolError}
use Tcp.{TcpStream}

-- `ops::Range<usize>`.
pub record Range : Type 0 where
  pub first : ℕ
  pub past : ℕ

pub data QueuedCommand : Type 0 where
  prepare_stream : QueuedCommand
  begin : Begin → QueuedCommand
  point_rate : PointRate → QueuedCommand
  data_range : Range → QueuedCommand
  stop : QueuedCommand
  emergency_stop : QueuedCommand
  clear_emergency_stop : QueuedCommand
  ping : QueuedCommand

pub record Stream : Type 0 where
  pub dac : Addressed
  pub tcp_stream : TcpStream
  pub command_buffer : List QueuedCommand
  pub point_buffer : List DacPoint
  pub bytes : Bytes

-- The queue borrows the stream.
pub record CommandQueue : Type 0 where
  pub stream : Stream

pub data Nak : Type 0 where
  full invalid stop_condition : Nak

pub data ResponseErrorKind : Type 0 where
  unexpected_command : ℕ → ResponseErrorKind
  nak : Nak → ResponseErrorKind

pub record ResponseError : Type 0 where
  pub response : DacResponse
  pub kind : ResponseErrorKind

pub data CommunicationError : Type 0 where
  io : IoError → CommunicationError
  protocol : ProtocolError → CommunicationError
  response : ResponseError → CommunicationError
