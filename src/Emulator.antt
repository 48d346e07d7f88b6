-- ===== src/Emulator.antt =====
-- dac-emulator/src: the emulated DAC. The state that a stream shares with its output, the commands
-- and what reading one from TCP yields. The children hold the handlers.
pub mod Process
pub mod Invariant
pub mod Machine
pub mod Emit
pub mod Rate
pub mod Emission
pub mod Interpret
pub mod Reading
pub mod Wire
pub mod Run
pub mod Exchange
pub mod Select
pub mod History
pub mod Next
pub mod Range
pub mod Session
pub mod Setup
pub mod Broadcast
pub mod Connection
use ether_dream.Base.{ℕ, List, Option, none, [], Result}
use ether_dream.Protocol.{DacPoint}
use ether_dream.Protocol.Command.{
  PrepareStream, Begin, PointRate, Data, Stop, EmergencyStop, ClearEmergencyStop, Ping,
}
use ether_dream.Dac.{Addressed}

-- `next_point_emission` is a moment, in nanoseconds on the system's monotonic clock.
pub record State : Type 0 where
  pub next_point_emission : Option ℕ
  pub buffer : List DacPoint

-- `State::default`.
abbrev pub default_state : State
default_state = record { next_point_emission = none; buffer = [] }

pub record Shared : Type 0 where
  pub dac : Addressed
  pub state : State

pub data Command : Type 0 where
  prepare_stream : PrepareStream → Command
  begin : Begin → Command
  point_rate : PointRate → Command
  data_points : Data → Command
  stop : Stop → Command
  emergency_stop : EmergencyStop → Command
  clear_emergency_stop : ClearEmergencyStop → Command
  ping : Ping → Command

pub data InterpretedCommand : Type 0 where
  known : Command → InterpretedCommand
  unknown : ℕ → InterpretedCommand

-- The implementation of `From`.
abbrev pub interpreted_from : Command → InterpretedCommand
interpreted_from command = known command

-- `Underflowed`, or the points to put out.
pub data Underflowed : Type 0 where
  underflowed : Underflowed

abbrev pub Output : Type 0
Output = Result Underflowed (List DacPoint)
