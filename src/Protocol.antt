-- ===== src/Protocol.antt =====
-- ether-dream/src/protocol.rs: the ports, the wire structures and their constants. The children hold
-- their encodings, and the commands.
pub mod Layout
pub mod Encode
pub mod Decode
pub mod RoundTrip
pub mod ReadBack
pub mod Spelling
pub mod Isomorphism
pub mod Command
use ether_dream.Base.{ℕ, ◌+◌}
use ether_dream.Base.Int.{ℤ}

abbrev pub communication_port : ℕ
communication_port = 7765

abbrev pub broadcast_port : ℕ
broadcast_port = 7654

pub record DacStatus : Type 0 where
  pub protocol : ℕ
  pub light_engine_state : ℕ
  pub playback_state : ℕ
  pub source : ℕ
  pub light_engine_flags : ℕ
  pub playback_flags : ℕ
  pub source_flags : ℕ
  pub buffer_fullness : ℕ
  pub point_rate : ℕ
  pub point_count : ℕ

-- `[u8; 6]`.
pub record MacBytes : Type 0 where
  pub b0 : ℕ
  pub b1 : ℕ
  pub b2 : ℕ
  pub b3 : ℕ
  pub b4 : ℕ
  pub b5 : ℕ

pub record DacBroadcast : Type 0 where
  pub mac_address : MacBytes
  pub hw_revision : ℕ
  pub sw_revision : ℕ
  pub buffer_capacity : ℕ
  pub max_point_rate : ℕ
  pub dac_status : DacStatus

pub record DacPoint : Type 0 where
  pub control : ℕ
  pub x : ℤ
  pub y : ℤ
  pub r : ℕ
  pub g : ℕ
  pub b : ℕ
  pub i : ℕ
  pub u1 : ℕ
  pub u2 : ℕ

pub record DacResponse : Type 0 where
  pub response : ℕ
  pub command : ℕ
  pub dac_status : DacStatus

-- The associated constants of `DacStatus`.
abbrev pub light_engine_ready : ℕ
light_engine_ready = 0

abbrev pub light_engine_warmup : ℕ
light_engine_warmup = 1

abbrev pub light_engine_cooldown : ℕ
light_engine_cooldown = 2

abbrev pub light_engine_emergency_stop : ℕ
light_engine_emergency_stop = 3

abbrev pub playback_idle : ℕ
playback_idle = 0

abbrev pub playback_prepared : ℕ
playback_prepared = 1

abbrev pub playback_playing : ℕ
playback_playing = 2

abbrev pub source_network_streaming : ℕ
source_network_streaming = 0

abbrev pub source_ilda_playback_sd : ℕ
source_ilda_playback_sd = 1

abbrev pub source_internal_abstract_generator : ℕ
source_internal_abstract_generator = 2

-- The associated constants of `DacResponse`.
abbrev pub ack : ℕ
ack = 0x61

abbrev pub nak_full : ℕ
nak_full = 0x46

abbrev pub nak_invalid : ℕ
nak_invalid = 0x49

abbrev pub nak_stop_condition : ℕ
nak_stop_condition = 0x21

-- `SizeBytes::SIZE_BYTES` of each structure.
abbrev pub dac_status_size_bytes : ℕ
dac_status_size_bytes = 20

abbrev pub dac_broadcast_size_bytes : ℕ
dac_broadcast_size_bytes = dac_status_size_bytes + 16

abbrev pub dac_point_size_bytes : ℕ
dac_point_size_bytes = 18

abbrev pub dac_response_size_bytes : ℕ
dac_response_size_bytes = dac_status_size_bytes + 2
