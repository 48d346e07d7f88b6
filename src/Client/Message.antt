-- ===== src/Client/Message.antt =====
-- `Display`, `Error` and `From` of the errors in ether-dream/src/dac/stream.rs and of `ProtocolError`.
use ether_dream.Base.{ℕ, List, Option, some}
use ether_dream.Base.Text.{codes}
use ether_dream.Io.{IoError}
use ether_dream.Dac.{
  ProtocolError, unknown_light_engine_state, unknown_playback_state, unknown_data_source,
}
use ether_dream.Client.{
  Nak, full, invalid, stop_condition, ResponseErrorKind, unexpected_command, nak, ResponseError,
  CommunicationError, io, protocol, response,
}

abbrev pub Text : Type 0
Text = List ℕ

unfoldable pub protocol_error_display : ProtocolError → Text
protocol_error_display unknown_light_engine_state = codes "unknown light engine state"
protocol_error_display unknown_playback_state = codes "unknown playback state"
protocol_error_display unknown_data_source = codes "unknown data source"

unfoldable pub nak_display : Nak → Text
nak_display full = codes "DAC responded with \"NAK - Full\""
nak_display invalid = codes "DAC responded with \"NAK - Invalid\""
nak_display stop_condition = codes "DAC responded with \"NAK - Stop Condition\""

unfoldable pub kind_display : ResponseErrorKind → Text
unfolding nak_display
kind_display (unexpected_command _) = codes "the received response was to an unexpected command"
kind_display (nak n) = nak_display n

unfoldable pub response_error_display : ResponseError → Text
unfolding kind_display
response_error_display e = kind_display e.kind

-- What an error of the operating system prints is a parameter.
unfoldable pub communication_error_display : (IoError → Text) → CommunicationError → Text
unfolding protocol_error_display response_error_display
communication_error_display io_display (io e) = io_display e
communication_error_display io_display (protocol e) = protocol_error_display e
communication_error_display io_display (response e) = response_error_display e

-- The errors that `Error::cause` may yield.
pub data Cause : Type 0 where
  io_cause : IoError → Cause
  protocol_cause : ProtocolError → Cause
  response_cause : ResponseError → Cause

unfoldable pub communication_error_cause : CommunicationError → Option Cause
communication_error_cause (io e) = some (io_cause e)
communication_error_cause (protocol e) = some (protocol_cause e)
communication_error_cause (response e) = some (response_cause e)

abbrev pub communication_error_from_io : IoError → CommunicationError
communication_error_from_io e = io e

abbrev pub communication_error_from_protocol : ProtocolError → CommunicationError
communication_error_from_protocol e = protocol e

abbrev pub communication_error_from_response : ResponseError → CommunicationError
communication_error_from_response e = response e
