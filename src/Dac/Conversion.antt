-- ===== src/Dac/Conversion.antt =====
-- The conversions between `Status` and `DacStatus`: which bytes are accepted, and what a trip there
-- and back keeps.
use ether_dream.Base.{
  ℕ, ◌%◌, ◌<◌, ◌≡◌, refl, arith, Option, none, some, Result, ok, err, ◌==◌, ltb, if◌then◌else◌,
}
use ether_dream.Protocol.{DacStatus}
use ether_dream.Dac.{
  LightEngine, ready, Playback, idle, DataSource, network_streaming, ilda_playback,
  internal_abstract_generator, Status, ProtocolError, unknown_light_engine_state,
  unknown_playback_state, unknown_data_source,
}
use ether_dream.Dac.Bitflags.{Bitflags, DropsUnknownBits}
use ether_dream.Dac.Convert.{
  light_engine_from_protocol, light_engine_to_protocol, playback_from_protocol,
  playback_to_protocol, data_source_from_protocol, data_source_to_protocol, status_from_protocol,
  status_to_protocol,
}

-- Flags that the crate can hold: declared ones only.
abbrev pub IsDataSource : DataSource → Type 0
IsDataSource network_streaming = Unit {0}
IsDataSource (ilda_playback flags) = flags.bits < 2
IsDataSource (internal_abstract_generator flags) = flags.bits ≡ 0

-- The flags of a status are declared ones, as the crate's constructors see to.
pub record HasKnownFlags (s : Status) : Type 0 where
  pub light_engine_flags : s.light_engine_flags.bits < 64
  pub playback_flags : s.playback_flags.bits < 8
  pub data_source : IsDataSource s.data_source

light_engine_from-to :
    (e : LightEngine) → light_engine_from_protocol (light_engine_to_protocol e) ≡ some e
unfolding light_engine_from_protocol light_engine_to_protocol
light_engine_from-to ready = refl
light_engine_from-to _ = refl

playback_from-to : (p : Playback) → playback_from_protocol (playback_to_protocol p) ≡ some p
unfolding playback_from_protocol playback_to_protocol
playback_from-to idle = refl
playback_from-to _ = refl

-- The bits of `source_flags` that survive a conversion.
abbrev pub known_source_flags : ℕ → ℕ → ℕ
known_source_flags source flags = if source == 1 then flags % 2 else 0

-- The wire status with the bits of undeclared flags cleared.
abbrev pub without_unknown_flags : DacStatus → DacStatus
without_unknown_flags p = record p {
  light_engine_flags = p.light_engine_flags % 64;
  playback_flags = p.playback_flags % 8;
  source_flags = known_source_flags p.source p.source_flags;
}

-- The first state byte that is out of range decides the error.
abbrev pub state_error : DacStatus → Option ProtocolError
state_error p =
    if ltb 3 p.light_engine_state
    then some unknown_light_engine_state
    else if ltb 2 p.playback_state
    then some unknown_playback_state
    else if ltb 2 p.source
    then some unknown_data_source
    else none

module _ ⦃f : Bitflags⦄ (laws : DropsUnknownBits f) where
  data_source_from-to :
      (d : DataSource)
      → IsDataSource d
      → data_source_from_protocol (data_source_to_protocol d).0 (data_source_to_protocol d).1
        ≡ some d
  unfolding data_source_from_protocol data_source_to_protocol
  data_source_from-to network_streaming h = refl
  data_source_from-to (ilda_playback flags) h = ground (arith, laws.low_bits 1 flags.bits)
  data_source_from-to (internal_abstract_generator flags) h =
      ground (arith, laws.low_bits 0 flags.bits)

  -- A status with declared flags only is converted to the wire and back to itself, if
  -- `from_bits_truncate` drops the undeclared bits.
  pub status_from-to :
      (s : Status) → HasKnownFlags s → status_from_protocol (status_to_protocol s) ≡ ok s
  unfolding status_from_protocol status_to_protocol
  status_from-to s h =
      rw
        (
          light_engine_from-to s.light_engine,
          playback_from-to s.playback,
          data_source_from-to s.data_source h.data_source,
        )
        (ground
          (arith, laws.low_bits 6 s.light_engine_flags.bits, laws.low_bits 3 s.playback_flags.bits))

  -- A wire status that is accepted comes back from the conversion as it was, less the bits of
  -- undeclared flags, if `from_bits_truncate` drops those.
  pub status_to-from :
      (p : DacStatus) {s : Status}
      → status_from_protocol p ≡ ok s
      → status_to_protocol s ≡ without_unknown_flags p
  unfolding status_from_protocol status_to_protocol
  status_to-from p {s} h = ground (
    arith,
    laws.low_bits 6 p.light_engine_flags,
    laws.low_bits 3 p.playback_flags,
    laws.low_bits 1 p.source_flags,
    laws.low_bits 0 p.source_flags,
  )

  pub status_from-HasKnownFlags :
      (p : DacStatus) {s : Status} → status_from_protocol p ≡ ok s → HasKnownFlags s
  unfolding status_from_protocol
  status_from-HasKnownFlags p {s} h = ground (
    arith,
    laws.low_bits 6 p.light_engine_flags,
    laws.low_bits 3 p.playback_flags,
    laws.low_bits 1 p.source_flags,
    laws.low_bits 0 p.source_flags,
  )

abbrev pub error_of {ℓ} : {E : Type 0} {A : Type ℓ} → Result E A → Option E
error_of (ok a) = none
error_of (err e) = some e

-- The conversion of a wire status fails exactly when a state byte is out of range: the light
-- engine above 3, the playback above 2 or the source above 2, and the first of these in that
-- order gives the error.
pub status_from_protocol_error :
    ⦃f : Bitflags⦄ (p : DacStatus) → error_of (status_from_protocol p) ≡ state_error p
unfolding status_from_protocol
status_from_protocol_error p = ground arith
