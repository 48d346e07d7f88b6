-- ===== src/Dac/Convert.antt =====
-- The conversions of ether-dream/src/dac/mod.rs from and to the wire structures.
use ether_dream.Base.{ℕ, Option, none, some, ◌==◌, if◌then◌else◌, Result, ok, err, ok_or, and_then}
use ether_dream.Protocol.{
  DacStatus, DacBroadcast, light_engine_ready, light_engine_warmup, light_engine_cooldown,
  light_engine_emergency_stop, playback_idle, playback_prepared, playback_playing,
  source_network_streaming, source_ilda_playback_sd, source_internal_abstract_generator,
}
use ether_dream.Dac.{
  LightEngine, ready, warmup, cooldown, emergency_stop, Playback, idle, prepared, playing,
  DataSource, network_streaming, ilda_playback, internal_abstract_generator, Status, Dac, Addressed,
  ProtocolError, unknown_light_engine_state, unknown_playback_state, unknown_data_source,
}
use ether_dream.Dac.Bitflags.{Bitflags}
use ether_dream.Dac.Flags.{
  all_light_engine_flags, all_playback_flags, all_ilda_playback_flags,
  all_internal_abstract_generator_flags,
}

unfoldable pub light_engine_from_protocol : ℕ → Option LightEngine
light_engine_from_protocol state =
    if state == light_engine_ready
    then some ready
    else if state == light_engine_warmup
    then some warmup
    else if state == light_engine_cooldown
    then some cooldown
    else if state == light_engine_emergency_stop
    then some emergency_stop
    else none

unfoldable pub light_engine_to_protocol : LightEngine → ℕ
light_engine_to_protocol ready = light_engine_ready
light_engine_to_protocol warmup = light_engine_warmup
light_engine_to_protocol cooldown = light_engine_cooldown
light_engine_to_protocol emergency_stop = light_engine_emergency_stop

unfoldable pub playback_from_protocol : ℕ → Option Playback
playback_from_protocol state =
    if state == playback_idle
    then some idle
    else if state == playback_prepared
    then some prepared
    else if state == playback_playing
    then some playing
    else none

unfoldable pub playback_to_protocol : Playback → ℕ
playback_to_protocol idle = playback_idle
playback_to_protocol prepared = playback_prepared
playback_to_protocol playing = playback_playing

unfoldable pub data_source_to_protocol : DataSource → ℕ × ℕ
data_source_to_protocol network_streaming = (source_network_streaming, 0)
data_source_to_protocol (ilda_playback flags) = (source_ilda_playback_sd, flags.bits)
data_source_to_protocol (internal_abstract_generator flags) =
    (source_internal_abstract_generator, flags.bits)

unfoldable pub status_to_protocol : Status → DacStatus
unfolding light_engine_to_protocol playback_to_protocol data_source_to_protocol
status_to_protocol s =
    let (source, source_flags) = data_source_to_protocol s.data_source in
    record {
      protocol = s.protocol;
      light_engine_state = light_engine_to_protocol s.light_engine;
      playback_state = playback_to_protocol s.playback;
      source = source;
      light_engine_flags = s.light_engine_flags.bits;
      playback_flags = s.playback_flags.bits;
      source_flags = source_flags;
      buffer_fullness = s.buffer_fullness;
      point_rate = s.point_rate;
      point_count = s.point_count;
    }

module _ ⦃f : Bitflags⦄ where
  unfoldable pub data_source_from_protocol : ℕ → ℕ → Option DataSource
  data_source_from_protocol source flags =
      if source == source_network_streaming
      then some network_streaming
      else if source == source_ilda_playback_sd
      then some
          (ilda_playback (record { bits = f.from_bits_truncate all_ilda_playback_flags flags }))
      else if source == source_internal_abstract_generator
      then some (
          internal_abstract_generator
            (record { bits = f.from_bits_truncate all_internal_abstract_generator_flags flags }))
      else none

  unfoldable pub status_from_protocol : DacStatus → Result ProtocolError Status
  unfolding light_engine_from_protocol playback_from_protocol data_source_from_protocol
  status_from_protocol s =
      and_then (ok_or (light_engine_from_protocol s.light_engine_state) unknown_light_engine_state)
        λ light_engine.
          and_then (ok_or (playback_from_protocol s.playback_state) unknown_playback_state)
            λ playback.
              and_then
                (ok_or (data_source_from_protocol s.source s.source_flags) unknown_data_source)
                λ data_source. ok (record {
                  protocol = s.protocol;
                  light_engine = light_engine;
                  playback = playback;
                  data_source = data_source;
                  light_engine_flags = record {
                    bits = f.from_bits_truncate all_light_engine_flags s.light_engine_flags;
                  };
                  playback_flags = record {
                    bits = f.from_bits_truncate all_playback_flags s.playback_flags;
                  };
                  buffer_fullness = s.buffer_fullness;
                  point_rate = s.point_rate;
                  point_count = s.point_count;
                })

  -- The last assignments of `Status::update`, after the three that may fail.
  abbrev update_rest : Status → DacStatus → Status
  update_rest self s = record self {
    light_engine_flags = record {
      bits = f.from_bits_truncate all_light_engine_flags s.light_engine_flags;
    };
    playback_flags = record { bits = f.from_bits_truncate all_playback_flags s.playback_flags };
    buffer_fullness = s.buffer_fullness;
    point_rate = s.point_rate;
    point_count = s.point_count;
  }

  -- Each assignment is made before the next conversion: what an early return leaves behind is part
  -- of the result.
  unfoldable pub update : Status → DacStatus → Result ProtocolError (Unit {0}) × Status
  unfolding light_engine_from_protocol playback_from_protocol data_source_from_protocol
  update self s =
      let with_protocol = record self { protocol = s.protocol } in
      elim (light_engine_from_protocol s.light_engine_state) [
        | none ↦ (err unknown_light_engine_state, with_protocol)
        | some light_engine ↦
            let with_light_engine = record with_protocol { light_engine = light_engine } in
            elim (playback_from_protocol s.playback_state) [
              | none ↦ (err unknown_playback_state, with_light_engine)
              | some playback ↦
                  let with_playback = record with_light_engine { playback = playback } in
                  elim (data_source_from_protocol s.source s.source_flags) [
                    | none ↦ (err unknown_data_source, with_playback)
                    | some data_source ↦
                        (ok tt, update_rest (record with_playback { data_source = data_source }) s)
                  ]
            ]
      ]

  -- `Dac::update_status`.
  unfoldable pub update_status : Dac → DacStatus → Result ProtocolError (Unit {0}) × Dac
  unfolding update
  update_status self s =
      let (result, status) = update self.status s in (result, record self { status = status })

  unfoldable pub from_broadcast : DacBroadcast → Result ProtocolError Addressed
  unfolding status_from_protocol
  from_broadcast d = and_then (status_from_protocol d.dac_status) λ status. ok (record {
    mac_address = record { bytes = d.mac_address };
    dac = record {
      hw_revision = d.hw_revision;
      sw_revision = d.sw_revision;
      buffer_capacity = d.buffer_capacity;
      max_point_rate = d.max_point_rate;
      status = status;
    };
  })
