-- ===== src/Client/Discovery.antt =====
-- `RecvDacBroadcasts` of ether-dream/src/lib.rs. The UDP socket is a parameter: `recv_from` yields
-- the next datagram with its sender.
use ether_dream.Base.{
  ℕ, zero, suc, List, ◌∷◌, ◌≡◌, ◌∙◌, refl, sym, arith, [], ◌++◌, append-nil, length, length-take,
  take, drop, take-all, drop-all, take-append-drop-length, replicate, Bool, Option, none, some,
  Result, ok, err, and_then,
}
use ether_dream.Io.{IoError, IoResult}
use ether_dream.Io.Bytes.{Bytes}
use ether_dream.Io.Reader.{ReadBytesExt, ReadsLittleEndian, read_bytes}
use ether_dream.Io.Slice.{slice_read}
use ether_dream.Io.Codec.{Reads-length}
use ether_dream.Protocol.{DacBroadcast, dac_broadcast_size_bytes, broadcast_port}
use ether_dream.Protocol.Layout.{broadcast_bytes, IsBroadcast}
use ether_dream.Protocol.Decode.{dac_broadcast_from_bytes}
use ether_dream.Protocol.RoundTrip.{Reads-broadcast, Takes-broadcast}

abbrev pub buffer_len : ℕ
buffer_len = dac_broadcast_size_bytes

pub record RecvDacBroadcasts (U : Type 0) : Type 0 where
  pub udp_socket : U
  pub buffer : Bytes

-- `bind` is at the unspecified address and the given port.
unfoldable pub recv_dac_broadcasts :
    {U : Type 0} → (bind : ℕ → Result IoError U) → Result IoError (RecvDacBroadcasts U)
recv_dac_broadcasts bind =
    and_then (bind broadcast_port)
      λ udp_socket. ok (record { udp_socket = udp_socket; buffer = replicate buffer_len 0 })

-- The options of the socket are the operating system's; a duration is in nanoseconds.
unfoldable pub set_timeout :
    {U : Type 0}
    → (set_read_timeout : Option ℕ → U → Result IoError (Unit {0})) → Option ℕ
    → RecvDacBroadcasts U
    → Result IoError (Unit {0})
set_timeout set_read_timeout duration self = set_read_timeout duration self.udp_socket

unfoldable pub set_nonblocking :
    {U : Type 0}
    → (set_nonblocking_of : Bool → U → Result IoError (Unit {0})) → Bool
    → RecvDacBroadcasts U
    → Result IoError (Unit {0})
set_nonblocking set_nonblocking_of nonblocking self = set_nonblocking_of nonblocking self.udp_socket

-- A datagram that is longer than the buffer loses its end; a shorter one leaves the end of the
-- buffer as it was, and the length that `recv_from` returns is not looked at.
abbrev received : Bytes → Bytes → Bytes
received datagram buffer =
    let front = take (length buffer) datagram in front ++ drop (length front) buffer

received_whole :
    (datagram buffer : Bytes)
    → length buffer ≡ length datagram
    → received datagram buffer ≡ datagram
received_whole datagram buffer e =
    let front = take-all (length buffer) datagram (omega (arith, e)) in
    rw (front, drop-all (length datagram) buffer (omega (arith, e)), append-nil)

received_front : (k : ℕ) (bs : Bytes) → received (take k bs) bs ≡ bs
received_front k bs = rw (
  take-all (length bs) (take k bs) (omega (arith, length-take k bs)),
  take-append-drop-length k bs,
)

module _ {U Addr : Type 0} where
  module _ (recv_from : U → Result IoError (Bytes × Addr) × U) ⦃r : ReadBytesExt Bytes⦄ where
    parsed_broadcast : IoResult (DacBroadcast × Bytes) → Addr → Result IoError (DacBroadcast × Addr)
    parsed_broadcast (ok (dac_broadcast, _)) src_addr = ok (dac_broadcast, src_addr)
    parsed_broadcast (err e) src_addr = err e

    from_datagram :
        RecvDacBroadcasts U
        → Result IoError (Bytes × Addr) × U
        → Result IoError (DacBroadcast × Addr) × RecvDacBroadcasts U
    unfolding parsed_broadcast
    from_datagram self (err e, u) = (err e, record self { udp_socket = u })
    from_datagram self (ok (datagram, src_addr), u) =
        let buffer = received datagram self.buffer in
        (
          parsed_broadcast (read_bytes {P = DacBroadcast} buffer) src_addr,
          record { udp_socket = u; buffer = buffer },
        )

    unfoldable pub next_broadcast :
        RecvDacBroadcasts U → Result IoError (DacBroadcast × Addr) × RecvDacBroadcasts U
    unfolding from_datagram
    next_broadcast self = from_datagram self (recv_from self.udp_socket)

    -- `Iterator::next`.
    unfoldable pub next :
        RecvDacBroadcasts U → Option (Result IoError (DacBroadcast × Addr)) × RecvDacBroadcasts U
    unfolding next_broadcast
    next self = let (result, after) = next_broadcast self in (some result, after)

    -- What a `for` loop over the iterator sees in its first `n` rounds.
    unfoldable pub items : ℕ → RecvDacBroadcasts U → List (Result IoError (DacBroadcast × Addr))
    items zero self = []
    items (suc n) self =
        let (item, after) = next self in
        let rest = items n after in elim item [ none ↦ [] | some result ↦ result ∷ rest ]

    module _ (le : ReadsLittleEndian slice_read r) where
      read_all :
          (d : DacBroadcast)
          → IsBroadcast d
          → read_bytes {P = DacBroadcast} (broadcast_bytes d) ≡ ok (d, [])
      read_all d h = rw append-nil at ((Reads-broadcast le d h).at [])

      -- If the buffer has the size of a broadcast and the datagram is the encoding of one whose
      -- fields are in range, `next_broadcast` yields it with its sender, and the buffer holds it.
      pub next_broadcast-whole :
          (self : RecvDacBroadcasts U) (d : DacBroadcast) (src : Addr) (u : U)
          → length self.buffer ≡ buffer_len
          → IsBroadcast d
          → recv_from self.udp_socket ≡ (ok (broadcast_bytes d, src), u)
          → next_broadcast self
            ≡ (ok (d, src), record { udp_socket = u; buffer = broadcast_bytes d })
      unfolding next_broadcast
      next_broadcast-whole self d src u sized h e =
          let size = Reads-length (Reads-broadcast le d h) (Takes-broadcast le) in
          rw
            (
              next_broadcast,
              e,
              received_whole (broadcast_bytes d) self.buffer (sized ∙ sym size),
              read_all d h,
            )
            refl

      -- If the buffer holds the encoding of a broadcast whose fields are in range, a datagram
      -- that breaks off after the first bytes of the same encoding, or is empty, is yielded as
      -- that whole broadcast.
      pub next_broadcast-truncated :
          (self : RecvDacBroadcasts U) (d : DacBroadcast) (k : ℕ) (src : Addr) (u : U)
          → self.buffer ≡ broadcast_bytes d
          → IsBroadcast d
          → recv_from self.udp_socket ≡ (ok (take k (broadcast_bytes d), src), u)
          → (next_broadcast self).0 ≡ ok (d, src)
      unfolding next_broadcast
      next_broadcast-truncated self d k src u old h e =
          rw (next_broadcast, e, old, received_front k (broadcast_bytes d), read_all d h) refl
