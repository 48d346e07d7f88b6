-- ===== src/Emulator/Broadcast/Heard.antt =====
-- The broadcaster of dac-emulator/src/broadcaster.rs and `RecvDacBroadcasts` of
-- ether-dream/src/lib.rs together: the datagrams of the one arrive at the other. Both sockets are
-- parameters.
use ether_dream.Base.{
  ℕ, suc, ◌≡◌, ◌∙◌, refl, ap, List, [], ◌∷◌, ◌++◌, map, map-map, length, All, Option, none, some,
  Result, ok, err,
}
use ether_dream.Io.{IoError}
use ether_dream.Io.Bytes.{Bytes}
use ether_dream.Io.Reader.{ReadBytesExt, ReadsLittleEndian}
use ether_dream.Io.Writer.{WriteBytesExt, WritesLittleEndian}
use ether_dream.Io.Slice.{SliceMut, slice_read, slice_write}
use ether_dream.Protocol.{DacBroadcast}
use ether_dream.Protocol.Layout.{IsBroadcast}
use ether_dream.Dac.{Addressed, ProtocolError}
use ether_dream.Dac.Bitflags.{Bitflags, DropsUnknownBits}
use ether_dream.Dac.Convert.{from_broadcast}
use ether_dream.Dac.Conversion.{HasKnownFlags}
use ether_dream.Client.Discovery.{RecvDacBroadcasts, buffer_len, next, items, next_broadcast-whole}
use ether_dream.Emulator.Setup.{Broadcaster, SocketAddr}
use ether_dream.Emulator.Broadcast.{
  Message, broadcast_of, run, announced, announcement, length-broadcast_bytes, Delivers, run_lem,
  from_broadcast-broadcast_of,
}

-- A socket at which `inbox` waits: a call of `recv_from` takes the first datagram.
pub record Receives {U Addr : Type 0} (recv_from : U → Result IoError (Bytes × Addr) × U)
    (inbox : U → List (Bytes × Addr)) : Type 0 where
  pub takes :
      (datagram : Bytes × Addr) (rest : List (Bytes × Addr)) (u : U)
      → inbox u ≡ datagram ∷ rest
      → (recv_from u).0 ≡ ok datagram
  pub leaves :
      (datagram : Bytes × Addr) (rest : List (Bytes × Addr)) (u : U)
      → inbox u ≡ datagram ∷ rest
      → inbox (recv_from u).1 ≡ rest

-- The DAC that an item of the iterator stands for, and where it is.
module _ ⦃f : Bitflags⦄ {Addr : Type 0} where
  at_source : Addr → Result ProtocolError Addressed → Option (Addressed × Addr)
  at_source src (ok dac) = some (dac, src)
  at_source src (err e) = none

  unfoldable pub seen : Result IoError (DacBroadcast × Addr) → Option (Addressed × Addr)
  unfolding at_source
  seen (ok (dac_broadcast, src)) = at_source src (from_broadcast dac_broadcast)
  seen (err e) = none

-- A status that can be put on the wire and taken from it.
abbrev pub IsAnnounceable : Addressed → Type 0
IsAnnounceable dac = HasKnownFlags dac.status × IsBroadcast (broadcast_of dac)

module _ {V Addr : Type 0} {recv_from : V → Result IoError (Bytes × Addr) × V}
    {inbox : V → List (Bytes × Addr)} ⦃r : ReadBytesExt Bytes⦄ ⦃f : Bitflags⦄
    (receives : Receives recv_from inbox) (le : ReadsLittleEndian slice_read r)
    (laws : DropsUnknownBits f) where
  next_lem :
      (client : RecvDacBroadcasts V) (dac : Addressed) (src : Addr) (rest : List (Bytes × Addr))
      → length client.buffer ≡ buffer_len
      → IsAnnounceable dac
      → inbox client.udp_socket ≡ (announcement dac, src) ∷ rest
      → next recv_from client ≡ (
        some (ok (broadcast_of dac, src)),
        record { udp_socket = (recv_from client.udp_socket).1; buffer = announcement dac },
      )
  unfolding next
  next_lem client dac src rest sized (known_flags, ranged) waits =
      rw
        (next_broadcast-whole recv_from le client (broadcast_of dac) src
          (recv_from client.udp_socket).1 sized ranged
          (ap (λ o. (o, (recv_from client.udp_socket).1)) (receives.takes _ rest _ waits)))
        refl

  items-next :
      (n : ℕ) (client after : RecvDacBroadcasts V) (item : Result IoError (DacBroadcast × Addr))
      → next recv_from client ≡ (some item, after)
      → items recv_from (suc n) client ≡ item ∷ items recv_from n after
  unfolding items
  items-next n client after item h =
      rw (items, ap (λ r. r.0) h) (ap (λ r. item ∷ items recv_from n r.1) h)

  seen-broadcast_of :
      (dac : Addressed) (src : Addr)
      → HasKnownFlags dac.status
      → seen (ok (broadcast_of dac, src)) ≡ some (dac, src)
  unfolding seen
  seen-broadcast_of dac src h = rw (from_broadcast-broadcast_of laws dac h) refl

  items_lem :
      (dacs : List Addressed) (src : Addr) (client : RecvDacBroadcasts V)
      → length client.buffer ≡ buffer_len
      → All IsAnnounceable dacs
      → inbox client.udp_socket ≡ map (λ dac. (announcement dac, src)) dacs
      → map seen (items recv_from (length dacs) client) ≡ map (λ dac. some (dac, src)) dacs
  unfolding items
  items_lem [] src client sized all waits = refl
  items_lem (dac ∷ dacs) src client sized (first, all) waits =
      let one = next_lem client dac src (map (λ d. (announcement d, src)) dacs) sized first waits in
      let after : RecvDacBroadcasts V = record {
        udp_socket = (recv_from client.udp_socket).1;
        buffer = announcement dac;
      } in
      let rest =
        items_lem dacs src after (length-broadcast_bytes (broadcast_of dac)) all
          (receives.leaves _ _ client.udp_socket waits) in
      rw (items-next (length dacs) client after _ one, seen-broadcast_of dac src first.0, rest) refl

  module _ {U : Type 0} {send_to : Bytes → SocketAddr → U → Result IoError ℕ × U}
      {log : U → List Bytes} ⦃w : WriteBytesExt SliceMut⦄ (delivers : Delivers send_to log)
      (writes : WritesLittleEndian slice_write w) where
    -- Discovery from end to end. If the broadcaster's socket takes every datagram and has sent
    -- none, both ends have a buffer of the size of a broadcast, the datagrams arrive in order at
    -- the client's socket, and every announced state has declared flags and its fields in range:
    -- then the DACs that the client's iterator yields, taken by `Addressed::from_broadcast`, are
    -- the DAC's latest state at each `Send` up to the first `Close`, in order, each with the
    -- broadcaster's address. A call of `recv_from` takes the first datagram that waits, the
    -- `byteorder` methods are little endian, and `from_bits_truncate` drops the undeclared bits.
    pub run-seen :
        (msgs : List Message) (self : Broadcaster U) (client : RecvDacBroadcasts V) (src : Addr)
        → length self.bytes ≡ 36
        → log self.udp_socket ≡ []
        → length client.buffer ≡ buffer_len
        → All IsAnnounceable (announced self.dac msgs)
        → inbox client.udp_socket ≡ map (λ bs. (bs, src)) (log (run send_to msgs self).1.udp_socket)
        → map seen (items recv_from (length (announced self.dac msgs)) client)
          ≡ map (λ dac. some (dac, src)) (announced self.dac msgs)
    run-seen msgs self client src sized unsent room all arrives =
        let (well, out) = run_lem delivers writes msgs self sized in
        let dacs = announced self.dac msgs in
        items_lem dacs src client room all (
          arrives
          ∙ ap (map (λ bs. (bs, src))) (out ∙ ap (λ l. l ++ map announcement dacs) unsent)
          ∙ map-map (λ bs. (bs, src)) announcement dacs)
