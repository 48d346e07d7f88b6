-- ===== src/Protocol/Decode.antt =====
-- The implementations of `ReadFromBytes` for the structures of ether-dream/src/protocol.rs.
use ether_dream.Io.{Io, pure, ◌>>=◌}
use ether_dream.Io.Reader.{
  ReadBytesExt, read_u8, read_u16, read_u32, read_i16, ReadFromBytes, read_bytes,
}
use ether_dream.Protocol.{DacStatus, DacBroadcast, DacPoint, DacResponse}

module _ {R : Type 0} ⦃r : ReadBytesExt R⦄ where
  unfoldable pub read_dac_status : Io R DacStatus
  read_dac_status = do
    protocol ← read_u8
    light_engine_state ← read_u8
    playback_state ← read_u8
    source ← read_u8
    light_engine_flags ← read_u16
    playback_flags ← read_u16
    source_flags ← read_u16
    buffer_fullness ← read_u16
    point_rate ← read_u32
    point_count ← read_u32
    pure (record {
      protocol = protocol;
      light_engine_state = light_engine_state;
      playback_state = playback_state;
      source = source;
      light_engine_flags = light_engine_flags;
      playback_flags = playback_flags;
      source_flags = source_flags;
      buffer_fullness = buffer_fullness;
      point_rate = point_rate;
      point_count = point_count;
    })

  instance abbrev pub dac_status_from_bytes : ReadFromBytes R DacStatus
  dac_status_from_bytes = record { read_from_bytes = read_dac_status }

  unfoldable pub read_dac_broadcast : Io R DacBroadcast
  read_dac_broadcast = do
    b0 ← read_u8
    b1 ← read_u8
    b2 ← read_u8
    b3 ← read_u8
    b4 ← read_u8
    b5 ← read_u8
    hw_revision ← read_u16
    sw_revision ← read_u16
    buffer_capacity ← read_u16
    max_point_rate ← read_u32
    dac_status ← read_bytes {P = DacStatus}
    pure (record {
      mac_address = record { b0 = b0; b1 = b1; b2 = b2; b3 = b3; b4 = b4; b5 = b5 };
      hw_revision = hw_revision;
      sw_revision = sw_revision;
      buffer_capacity = buffer_capacity;
      max_point_rate = max_point_rate;
      dac_status = dac_status;
    })

  instance abbrev pub dac_broadcast_from_bytes : ReadFromBytes R DacBroadcast
  dac_broadcast_from_bytes = record { read_from_bytes = read_dac_broadcast }

  unfoldable pub read_dac_point : Io R DacPoint
  read_dac_point = do
    control ← read_u16
    x ← read_i16
    y ← read_i16
    red ← read_u16
    green ← read_u16
    blue ← read_u16
    i ← read_u16
    u1 ← read_u16
    u2 ← read_u16
    pure (record {
      control = control;
      x = x;
      y = y;
      r = red;
      g = green;
      b = blue;
      i = i;
      u1 = u1;
      u2 = u2;
    })

  instance abbrev pub dac_point_from_bytes : ReadFromBytes R DacPoint
  dac_point_from_bytes = record { read_from_bytes = read_dac_point }

  unfoldable pub read_dac_response : Io R DacResponse
  read_dac_response = do
    response ← read_u8
    command ← read_u8
    dac_status ← read_bytes {P = DacStatus}
    pure (record { response = response; command = command; dac_status = dac_status })

  instance abbrev pub dac_response_from_bytes : ReadFromBytes R DacResponse
  dac_response_from_bytes = record { read_from_bytes = read_dac_response }
