-- ===== src/Dac/Flags.antt =====
-- The `bitflags!` blocks of ether-dream/src/dac/mod.rs. Each set is the number of its bits; `all` is
-- the union of the declared flags, which are distinct bits, so that their sum is their union.
use ether_dream.Base.{ℕ, ◌+◌}

pub record LightEngineFlags : Type 0 where
  pub bits : ℕ

abbrev pub emergency_stop_packet_or_invalid_command : ℕ
emergency_stop_packet_or_invalid_command = 0b00000001

abbrev pub emergency_stop_projector_input : ℕ
emergency_stop_projector_input = 0b00000010

abbrev pub emergency_stop_projector_input_active : ℕ
emergency_stop_projector_input_active = 0b00000100

abbrev pub emergency_stop_over_temperature : ℕ
emergency_stop_over_temperature = 0b00001000

abbrev pub emergency_stop_over_temperature_active : ℕ
emergency_stop_over_temperature_active = 0b00010000

abbrev pub emergency_stop_lost_ethernet_link : ℕ
emergency_stop_lost_ethernet_link = 0b00100000

abbrev pub all_light_engine_flags : ℕ
all_light_engine_flags =
    emergency_stop_packet_or_invalid_command + emergency_stop_projector_input
    + emergency_stop_projector_input_active + emergency_stop_over_temperature
    + emergency_stop_over_temperature_active + emergency_stop_lost_ethernet_link

pub record PlaybackFlags : Type 0 where
  pub bits : ℕ

abbrev pub shutter_open : ℕ
shutter_open = 0b00000001

abbrev pub underflowed : ℕ
underflowed = 0b00000010

abbrev pub playback_emergency_stop : ℕ
playback_emergency_stop = 0b00000100

abbrev pub all_playback_flags : ℕ
all_playback_flags = shutter_open + underflowed + playback_emergency_stop

pub record IldaPlaybackFlags : Type 0 where
  pub bits : ℕ

abbrev pub ilda_playing : ℕ
ilda_playing = 0b0

abbrev pub ilda_repeat : ℕ
ilda_repeat = 0b1

abbrev pub all_ilda_playback_flags : ℕ
all_ilda_playback_flags = ilda_playing + ilda_repeat

pub record InternalAbstractGeneratorFlags : Type 0 where
  pub bits : ℕ

abbrev pub generator_playing : ℕ
generator_playing = 0

abbrev pub all_internal_abstract_generator_flags : ℕ
all_internal_abstract_generator_flags = generator_playing

-- The control field of a point.
pub record PointControl : Type 0 where
  pub bits : ℕ

abbrev pub change_rate : ℕ
change_rate = 0b10000000_00000000

abbrev pub all_point_control : ℕ
all_point_control = change_rate
