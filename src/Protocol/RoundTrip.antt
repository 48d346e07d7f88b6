-- ===== src/Protocol/RoundTrip.antt =====
-- The structures' readers and writers meet the layout.
use ether_dream.Base.{[], ◌∷◌, ◌++◌}
use ether_dream.Io.{Io, ◌>>=◌}
use ether_dream.Io.Bytes.{Bytes}
use ether_dream.Io.Reader.{ReadBytesExt, ReadsLittleEndian}
use ether_dream.Io.Writer.{Write, WriteBytesExt, WritesLittleEndian}
use ether_dream.Io.Slice.{slice_read}
use ether_dream.Io.Codec.{
  Reads, Reads-bind, Widths, Takes, Writes, reads_rules, takes_rules, writes_rules,
}
use ether_dream.Protocol.{
  DacStatus, DacBroadcast, DacPoint, DacResponse, dac_status_size_bytes, dac_point_size_bytes,
  dac_broadcast_size_bytes, dac_response_size_bytes,
}
use ether_dream.Protocol.Layout.{
  status_bytes, broadcast_bytes, point_bytes, response_bytes, IsStatus, IsBroadcast, IsPoint,
  IsResponse,
}
use ether_dream.Protocol.Encode.{
  write_dac_status, write_dac_broadcast, write_dac_point, write_dac_response,
}
use ether_dream.Protocol.Decode.{
  read_dac_status, read_dac_broadcast, read_dac_point, read_dac_response,
}

module _ ⦃r : ReadBytesExt Bytes⦄ (le : ReadsLittleEndian slice_read r) where
  pub Reads-status : (s : DacStatus) → IsStatus s → Reads read_dac_status (status_bytes s) s
  unfolding read_dac_status status_bytes
  Reads-status s h = search reads_rules depth 16

  pub Reads-point : (p : DacPoint) → IsPoint p → Reads read_dac_point (point_bytes p) p
  unfolding read_dac_point point_bytes
  Reads-point p h = search reads_rules depth 16

  Reads-status_then :
      {B : Type 0} (f : DacStatus → Io Bytes B) {s : DacStatus} {cs : Bytes} {b : B}
      → IsStatus s
      → Reads (f s) cs b
      → Reads (read_dac_status >>= f) (status_bytes s ++ cs) b
  Reads-status_then f {s} h = Reads-bind _ f (Reads-status s h)

  pub Reads-broadcast :
      (d : DacBroadcast) → IsBroadcast d → Reads read_dac_broadcast (broadcast_bytes d) d
  unfolding read_dac_broadcast broadcast_bytes
  Reads-broadcast d h = search (reads_rules, Reads-status_then) depth 16

  pub Reads-response :
      (d : DacResponse) → IsResponse d → Reads read_dac_response (response_bytes d) d
  unfolding read_dac_response response_bytes
  Reads-response d h = search (reads_rules, Reads-status_then) depth 16

  Widths-status : Widths read_dac_status (1 ∷ 1 ∷ 1 ∷ 1 ∷ 2 ∷ 2 ∷ 2 ∷ 2 ∷ 4 ∷ 4 ∷ [])
  unfolding read_dac_status
  Widths-status = search takes_rules depth 16

  pub Takes-status : Takes read_dac_status dac_status_size_bytes
  Takes-status = Widths-status.takes

  Widths-point : Widths read_dac_point (2 ∷ 2 ∷ 2 ∷ 2 ∷ 2 ∷ 2 ∷ 2 ∷ 2 ∷ 2 ∷ [])
  unfolding read_dac_point
  Widths-point = search takes_rules depth 16

  pub Takes-point : Takes read_dac_point dac_point_size_bytes
  Takes-point = Widths-point.takes

  Widths-broadcast :
      Widths read_dac_broadcast (1 ∷ 1 ∷ 1 ∷ 1 ∷ 1 ∷ 1 ∷ 2 ∷ 2 ∷ 2 ∷ 4 ∷ dac_status_size_bytes ∷ [])
  unfolding read_dac_broadcast
  Widths-broadcast = search (takes_rules, Takes-status) depth 16

  -- Reading a broadcast takes exactly 36 bytes off any input that has them, whatever they are,
  -- and fails with `UnexpectedEof` on any shorter one; the `byteorder` methods being little
  -- endian as documented.
  pub Takes-broadcast : Takes read_dac_broadcast dac_broadcast_size_bytes
  Takes-broadcast = Widths-broadcast.takes

  Widths-response : Widths read_dac_response (1 ∷ 1 ∷ dac_status_size_bytes ∷ [])
  unfolding read_dac_response
  Widths-response = search (takes_rules, Takes-status) depth 16

  -- Reading a response takes exactly 22 bytes off any input that has them, whatever they are, and
  -- fails with `UnexpectedEof` on any shorter one; the `byteorder` methods being little endian as
  -- documented.
  pub Takes-response : Takes read_dac_response dac_response_size_bytes
  Takes-response = Widths-response.takes

module _ {W : Type 0} {sink : Write W} ⦃w : WriteBytesExt W⦄ (le : WritesLittleEndian sink w) where
  pub Writes-status : (s : DacStatus) → Writes sink (write_dac_status s) (status_bytes s)
  unfolding write_dac_status status_bytes
  Writes-status s = search writes_rules depth 16

  pub Writes-point : (p : DacPoint) → Writes sink (write_dac_point p) (point_bytes p)
  unfolding write_dac_point point_bytes
  Writes-point p = search writes_rules depth 16

  pub Writes-broadcast :
      (d : DacBroadcast) → Writes sink (write_dac_broadcast d) (broadcast_bytes d)
  unfolding write_dac_broadcast broadcast_bytes
  Writes-broadcast d = search (writes_rules, Writes-status) depth 16

  pub Writes-response : (d : DacResponse) → Writes sink (write_dac_response d) (response_bytes d)
  unfolding write_dac_response response_bytes
  Writes-response d = search (writes_rules, Writes-status) depth 16
