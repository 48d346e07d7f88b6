-- ===== src/Protocol/Encode.antt =====
-- The implementations of `WriteToBytes` in ether-dream/src/protocol.rs.
use ether_dream.Base.{ℕ, List, [], ◌∷◌}
use ether_dream.Io.{Io, pure, ◌>>◌}
use ether_dream.Io.Writer.{
  WriteBytesExt, write_u8, write_u16, write_u32, write_i16, WriteToBytes, write_bytes,
}
use ether_dream.Protocol.{DacStatus, MacBytes, DacBroadcast, DacPoint, DacResponse}

-- The bytes that `for &byte in &self.mac_address` visits.
abbrev pub mac_list : MacBytes → List ℕ
mac_list m = m.b0 ∷ m.b1 ∷ m.b2 ∷ m.b3 ∷ m.b4 ∷ m.b5 ∷ []

module _ {W : Type 0} ⦃w : WriteBytesExt W⦄ where
  unfoldable pub write_dac_status : DacStatus → Io W (Unit {0})
  write_dac_status s = do
    write_u8 s.protocol
    write_u8 s.light_engine_state
    write_u8 s.playback_state
    write_u8 s.source
    write_u16 s.light_engine_flags
    write_u16 s.playback_flags
    write_u16 s.source_flags
    write_u16 s.buffer_fullness
    write_u32 s.point_rate
    write_u32 s.point_count
    pure tt

  instance abbrev pub dac_status_to_bytes : WriteToBytes W DacStatus
  dac_status_to_bytes = record { write_to_bytes = write_dac_status }

  -- The loop over the address, then `k`.
  abbrev pub write_each : List ℕ → Io W (Unit {0}) → Io W (Unit {0})
  write_each [] k = k
  write_each (byte ∷ rest) k = write_u8 byte >> write_each rest k

  unfoldable pub write_dac_broadcast : DacBroadcast → Io W (Unit {0})
  write_dac_broadcast d = write_each (mac_list d.mac_address) do
    write_u16 d.hw_revision
    write_u16 d.sw_revision
    write_u16 d.buffer_capacity
    write_u32 d.max_point_rate
    write_bytes d.dac_status
    pure tt

  instance abbrev pub dac_broadcast_to_bytes : WriteToBytes W DacBroadcast
  dac_broadcast_to_bytes = record { write_to_bytes = write_dac_broadcast }

  unfoldable pub write_dac_point : DacPoint → Io W (Unit {0})
  write_dac_point p = do
    write_u16 p.control
    write_i16 p.x
    write_i16 p.y
    write_u16 p.r
    write_u16 p.g
    write_u16 p.b
    write_u16 p.i
    write_u16 p.u1
    write_u16 p.u2
    pure tt

  instance abbrev pub dac_point_to_bytes : WriteToBytes W DacPoint
  dac_point_to_bytes = record { write_to_bytes = write_dac_point }

  unfoldable pub write_dac_response : DacResponse → Io W (Unit {0})
  write_dac_response d = do
    write_u8 d.response
    write_u8 d.command
    write_bytes d.dac_status
    pure tt

  instance abbrev pub dac_response_to_bytes : WriteToBytes W DacResponse
  dac_response_to_bytes = record { write_to_bytes = write_dac_response }
