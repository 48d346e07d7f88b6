-- ===== src/Dac.antt =====
-- ether-dream/src/dac/mod.rs: a DAC with its status. The children hold the flags, the conversions
-- from and to the wire structures, and the command whose kind is known at run time.
pub mod Bitflags
pub mod Flags
pub mod Convert
pub mod Conversion
pub mod Update
pub mod Mac
pub mod Command
use ether_dream.Base.{ℕ}
use ether_dream.Protocol.{MacBytes}
use Flags.{LightEngineFlags, PlaybackFlags, IldaPlaybackFlags, InternalAbstractGeneratorFlags}

pub data LightEngine : Type 0 where
  ready warmup cooldown emergency_stop : LightEngine

pub data Playback : Type 0 where
  idle prepared playing : Playback

pub data DataSource : Type 0 where
  network_streaming : DataSource
  ilda_playback : IldaPlaybackFlags → DataSource
  internal_abstract_generator : InternalAbstractGeneratorFlags → DataSource

pub record Status : Type 0 where
  pub protocol : ℕ
  pub light_engine : LightEngine
  pub playback : Playback
  pub data_source : DataSource
  pub light_engine_flags : LightEngineFlags
  pub playback_flags : PlaybackFlags
  pub buffer_fullness : ℕ
  pub point_rate : ℕ
  pub point_count : ℕ

pub record Dac : Type 0 where
  pub hw_revision : ℕ
  pub sw_revision : ℕ
  pub buffer_capacity : ℕ
  pub max_point_rate : ℕ
  pub status : Status

-- A tuple structure; `bytes` is its field `0`.
pub record MacAddress : Type 0 where
  pub bytes : MacBytes

-- `Deref` makes the fields of `dac` those of the whole.
pub record Addressed : Type 0 where
  pub mac_address : MacAddress
  pub dac : Dac
  pub open dac use *

pub data ProtocolError : Type 0 where
  unknown_light_engine_state unknown_playback_state unknown_data_source : ProtocolError
