-- ===== src/Protocol/Layout.antt =====
-- The wire format, written down independently of the readers and writers: which fields stand in
-- which order, each little endian at its width. And the ranges of the fields, which in the source
-- their types give.
use ether_dream.Base.{[], ◌++◌}
use ether_dream.Base.Int.{u16_of_i16, IsI16}
use ether_dream.Io.Bytes.{Bytes, IsByte, IsU16, IsU32, le_bytes}
use ether_dream.Protocol.{DacStatus, MacBytes, DacBroadcast, DacPoint, DacResponse}

unfoldable pub status_bytes : DacStatus → Bytes
status_bytes s =
    le_bytes 1 s.protocol
    ++ (le_bytes 1 s.light_engine_state
        ++ (le_bytes 1 s.playback_state
            ++ (le_bytes 1 s.source
                ++ (le_bytes 2 s.light_engine_flags
                    ++ (le_bytes 2 s.playback_flags
                        ++ (le_bytes 2 s.source_flags
                            ++ (le_bytes 2 s.buffer_fullness
                                ++ (le_bytes 4 s.point_rate
                                    ++ (le_bytes 4 s.point_count ++ [])))))))))

unfoldable pub broadcast_bytes : DacBroadcast → Bytes
broadcast_bytes d =
    le_bytes 1 d.mac_address.b0
    ++ (le_bytes 1 d.mac_address.b1
        ++ (le_bytes 1 d.mac_address.b2
            ++ (le_bytes 1 d.mac_address.b3
                ++ (le_bytes 1 d.mac_address.b4
                    ++ (le_bytes 1 d.mac_address.b5
                        ++ (le_bytes 2 d.hw_revision
                            ++ (le_bytes 2 d.sw_revision
                                ++ (le_bytes 2 d.buffer_capacity
                                    ++ (le_bytes 4 d.max_point_rate
                                        ++ (status_bytes d.dac_status ++ []))))))))))

unfoldable pub point_bytes : DacPoint → Bytes
point_bytes p =
    le_bytes 2 p.control
    ++ (le_bytes 2 (u16_of_i16 p.x)
        ++ (le_bytes 2 (u16_of_i16 p.y)
            ++ (le_bytes 2 p.r
                ++ (le_bytes 2 p.g
                    ++ (le_bytes 2 p.b
                        ++ (le_bytes 2 p.i ++ (le_bytes 2 p.u1 ++ (le_bytes 2 p.u2 ++ []))))))))

unfoldable pub response_bytes : DacResponse → Bytes
response_bytes d =
    le_bytes 1 d.response ++ (le_bytes 1 d.command ++ (status_bytes d.dac_status ++ []))

pub record IsStatus (s : DacStatus) : Type 0 where
  pub protocol : IsByte s.protocol
  pub light_engine_state : IsByte s.light_engine_state
  pub playback_state : IsByte s.playback_state
  pub source : IsByte s.source
  pub light_engine_flags : IsU16 s.light_engine_flags
  pub playback_flags : IsU16 s.playback_flags
  pub source_flags : IsU16 s.source_flags
  pub buffer_fullness : IsU16 s.buffer_fullness
  pub point_rate : IsU32 s.point_rate
  pub point_count : IsU32 s.point_count

pub record IsMac (m : MacBytes) : Type 0 where
  pub b0 : IsByte m.b0
  pub b1 : IsByte m.b1
  pub b2 : IsByte m.b2
  pub b3 : IsByte m.b3
  pub b4 : IsByte m.b4
  pub b5 : IsByte m.b5

pub record IsBroadcast (d : DacBroadcast) : Type 0 where
  pub mac_address : IsMac d.mac_address
  pub hw_revision : IsU16 d.hw_revision
  pub sw_revision : IsU16 d.sw_revision
  pub buffer_capacity : IsU16 d.buffer_capacity
  pub max_point_rate : IsU32 d.max_point_rate
  pub dac_status : IsStatus d.dac_status

pub record IsPoint (p : DacPoint) : Type 0 where
  pub control : IsU16 p.control
  pub x : IsI16 p.x
  pub y : IsI16 p.y
  pub r : IsU16 p.r
  pub g : IsU16 p.g
  pub b : IsU16 p.b
  pub i : IsU16 p.i
  pub u1 : IsU16 p.u1
  pub u2 : IsU16 p.u2

pub record IsResponse (d : DacResponse) : Type 0 where
  pub response : IsByte d.response
  pub command : IsByte d.command
  pub dac_status : IsStatus d.dac_status
