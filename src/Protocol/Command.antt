-- ===== src/Protocol/Command.antt =====
-- The module `command` of ether-dream/src/protocol.rs: the commands that a host may send.
pub mod Layout
pub mod Encode
pub mod Decode
pub mod RoundTrip
use ether_dream.Base.{ℕ, List}
use ether_dream.Protocol.{DacPoint}

pub data PrepareStream : Type 0 where
  prepare_stream : PrepareStream

pub record Begin : Type 0 where
  pub low_water_mark : ℕ
  pub point_rate : ℕ

-- A tuple structure; `rate` is its field `0`.
pub record PointRate : Type 0 where
  pub rate : ℕ

pub record Data : Type 0 where
  pub points : List DacPoint

pub data Stop : Type 0 where
  stop : Stop

pub data EmergencyStop : Type 0 where
  emergency_stop : EmergencyStop

pub data EmergencyStopAlt : Type 0 where
  emergency_stop_alt : EmergencyStopAlt

pub data ClearEmergencyStop : Type 0 where
  clear_emergency_stop : ClearEmergencyStop

pub data Ping : Type 0 where
  ping : Ping

-- `Command::START_BYTE` of each command.
abbrev pub prepare_stream_start_byte : ℕ
prepare_stream_start_byte = 0x70

abbrev pub begin_start_byte : ℕ
begin_start_byte = 0x62

abbrev pub point_rate_start_byte : ℕ
point_rate_start_byte = 0x74

abbrev pub data_start_byte : ℕ
data_start_byte = 0x64

abbrev pub stop_start_byte : ℕ
stop_start_byte = 0x73

abbrev pub emergency_stop_start_byte : ℕ
emergency_stop_start_byte = 0x00

abbrev pub emergency_stop_alt_start_byte : ℕ
emergency_stop_alt_start_byte = 0xff

abbrev pub clear_emergency_stop_start_byte : ℕ
clear_emergency_stop_start_byte = 0x63

abbrev pub ping_start_byte : ℕ
ping_start_byte = 0x3f

-- `SizeBytes::SIZE_BYTES` of the commands of constant size.
abbrev pub prepare_stream_size_bytes : ℕ
prepare_stream_size_bytes = 1

abbrev pub begin_size_bytes : ℕ
begin_size_bytes = 7

abbrev pub point_rate_size_bytes : ℕ
point_rate_size_bytes = 5

abbrev pub stop_size_bytes : ℕ
stop_size_bytes = 1

abbrev pub emergency_stop_size_bytes : ℕ
emergency_stop_size_bytes = 1

abbrev pub clear_emergency_stop_size_bytes : ℕ
clear_emergency_stop_size_bytes = 1

abbrev pub ping_size_bytes : ℕ
ping_size_bytes = 1

-- `std::u16::MAX`.
abbrev pub u16_max : ℕ
u16_max = 65535
