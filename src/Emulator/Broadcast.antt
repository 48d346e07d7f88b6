-- ===== src/Emulator/Broadcast.antt =====
-- `Broadcaster` of dac-emulator/src/broadcaster.rs. The messages that arrive are a list; `send_to` of
-- the UDP socket is a parameter.
pub mod Timer
pub mod Heard
use ether_dream.Base.{
  ℕ, ◌≡◌, ◌∙◌, refl, sym, ap, List, [], ◌∷◌, ◌++◌, append-nil, append_assoc, map, length, Result,
  ok, err,
}
use ether_dream.Io.{IoError}
use ether_dream.Io.Bytes.{Bytes, le_bytes}
use ether_dream.Io.Writer.{WriteBytesExt, WritesLittleEndian, write_bytes}
use ether_dream.Io.Slice.{SliceMut, contents, slice_write}
use ether_dream.Io.Fill.{Writes-fills}
use ether_dream.Protocol.{DacBroadcast}
use ether_dream.Protocol.Layout.{broadcast_bytes, status_bytes}
use ether_dream.Protocol.Encode.{dac_broadcast_to_bytes}
use ether_dream.Protocol.RoundTrip.{Writes-broadcast}
use ether_dream.Dac.{Addressed}
use ether_dream.Dac.Bitflags.{Bitflags, DropsUnknownBits}
use ether_dream.Dac.Convert.{status_to_protocol, from_broadcast}
use ether_dream.Dac.Conversion.{HasKnownFlags, status_from-to}
use ether_dream.Dac.Mac.{mac_into}
use ether_dream.Emulator.Setup.{Broadcaster, SocketAddr}

pub data Message : Type 0 where
  dac_changed : Addressed → Message
  send_now : Message
  close : Message

-- The broadcast of a DAC's state.
unfoldable pub broadcast_of : Addressed → DacBroadcast
unfolding mac_into
broadcast_of dac = record {
  mac_address = mac_into dac.mac_address;
  hw_revision = dac.hw_revision;
  sw_revision = dac.sw_revision;
  buffer_capacity = dac.buffer_capacity;
  max_point_rate = dac.max_point_rate;
  dac_status = status_to_protocol dac.status;
}

module _ {U : Type 0} where
  unfoldable pub create_broadcast : Broadcaster U → DacBroadcast
  unfolding broadcast_of
  create_broadcast self = broadcast_of self.dac

  sent : Broadcaster U → Result IoError ℕ × U → Result IoError (Unit {0}) × Broadcaster U
  sent self (ok _, u) = (ok tt, record self { udp_socket = u })
  sent self (err e, u) = (err e, record self { udp_socket = u })

  module _ (send_to : Bytes → SocketAddr → U → Result IoError ℕ × U)
      ⦃w : WriteBytesExt SliceMut⦄ where
    unfoldable pub send : Broadcaster U → Result IoError (Unit {0}) × Broadcaster U
    unfolding create_broadcast sent
    send self =
        elim (write_bytes {W = SliceMut} (create_broadcast self)
          (record { written = []; left = self.bytes })) [
            | err e ↦ (err e, self)
            | ok (_, slice) ↦
                let bytes = contents slice in
                sent (record self { bytes = bytes })
                  (send_to bytes self.broadcast_addr self.udp_socket)
          ]

    -- The loop ends with the messages, at `Close` or at the first error.
    unfoldable pub run : List Message → Broadcaster U → Result IoError (Unit {0}) × Broadcaster U
    run [] self = (ok tt, self)
    run (dac_changed dac ∷ msgs) self = run msgs (record self { dac = dac })
    run (close ∷ msgs) self = (ok tt, self)
    run (send_now ∷ msgs) self =
        let (result, after) = send self in
        elim result [ err e ↦ (err e, after) | ok _ ↦ run msgs after ]

-- The states that are announced: at each `Send` the latest, until `Close`.
unfoldable pub announced : Addressed → List Message → List Addressed
announced dac [] = []
announced dac (dac_changed dac' ∷ msgs) = announced dac' msgs
announced dac (close ∷ msgs) = []
announced dac (send_now ∷ msgs) = dac ∷ announced dac msgs

-- A socket that takes every datagram: `log` is what was sent through it.
pub record Delivers {U : Type 0} (send_to : Bytes → SocketAddr → U → Result IoError ℕ × U)
    (log : U → List Bytes) : Type 0 where
  pub accepted : (bs : Bytes) (a : SocketAddr) (u : U) → (send_to bs a u).0 ≡ ok (length bs)
  pub logged : (bs : Bytes) (a : SocketAddr) (u : U) → log (send_to bs a u).1 ≡ log u ++ bs ∷ []

pub length-broadcast_bytes : (d : DacBroadcast) → length (broadcast_bytes d) ≡ 36
unfolding broadcast_bytes status_bytes le_bytes
length-broadcast_bytes d = refl

-- `run` ended well, and `out` went through the socket.
abbrev pub Announces :
    {U : Type 0}
    → (U → List Bytes)
    → Broadcaster U
    → List Bytes
    → Result IoError (Unit {0}) × Broadcaster U
    → Type 0
Announces log self out (result, after) =
    (result ≡ ok tt) × (log after.udp_socket ≡ log self.udp_socket ++ out)

abbrev pub announcement : Addressed → Bytes
announcement dac = broadcast_bytes (broadcast_of dac)

module _ {U : Type 0} {send_to : Bytes → SocketAddr → U → Result IoError ℕ × U}
    {log : U → List Bytes} ⦃w : WriteBytesExt SliceMut⦄ (delivers : Delivers send_to log)
    (writes : WritesLittleEndian slice_write w) where
  -- One broadcast, and what it leaves.
  send_lem :
      (self : Broadcaster U)
      → length self.bytes ≡ 36
      → let bs = announcement self.dac in
        send send_to self ≡ (
          ok tt,
          record self {
            bytes = bs;
            udp_socket = (send_to bs self.broadcast_addr self.udp_socket).1;
          },
        )
  unfolding send create_broadcast
  send_lem self sized =
      let bs = announcement self.dac in
      let size : length bs ≡ length self.bytes =
        length-broadcast_bytes (broadcast_of self.dac) ∙ sym sized in
      rw
        (
          send,
          Writes-fills self.bytes (Writes-broadcast writes (broadcast_of self.dac)) size,
          append-nil bs,
          delivers.accepted bs self.broadcast_addr self.udp_socket,
        )
        refl

  run-next :
      (msgs : List Message) (self : Broadcaster U) {after : Broadcaster U}
      → send send_to self ≡ (ok tt, after)
      → run send_to (send_now ∷ msgs) self ≡ run send_to msgs after
  unfolding run
  run-next msgs self h = rw (run, ap (λ r. r.0) h) (ap (λ r. run send_to msgs r.1) h)

  -- On a socket that takes every datagram, with a buffer of the size of a broadcast, `run` ends
  -- in success, and the datagrams that it has sent are the encodings of the DAC's latest state at
  -- each `Send`, in order, up to the first `Close`.
  pub run_lem :
      (msgs : List Message) (self : Broadcaster U)
      → length self.bytes ≡ 36
      → Announces log self (map announcement (announced self.dac msgs)) (run send_to msgs self)
  unfolding run announced
  run_lem [] self sized = (refl, sym (append-nil (log self.udp_socket)))
  run_lem (dac_changed dac ∷ msgs) self sized = run_lem msgs (record self { dac = dac }) sized
  run_lem (close ∷ msgs) self sized = (refl, sym (append-nil (log self.udp_socket)))
  run_lem (send_now ∷ msgs) self sized =
      let bs = announcement self.dac in
      let after = record self {
        bytes = bs;
        udp_socket = (send_to bs self.broadcast_addr self.udp_socket).1;
      } in
      let (well, out) = run_lem msgs after (length-broadcast_bytes (broadcast_of self.dac)) in
      let next = run-next msgs self (send_lem self sized) in
      let logged = delivers.logged bs self.broadcast_addr self.udp_socket in
      (
        ap (λ r. r.0) next ∙ well,
        ap (λ (r : Result IoError (Unit {0}) × Broadcaster U). log r.1.udp_socket) next
            ∙ out
            ∙ ap (λ (l : List Bytes). l ++ map announcement (announced self.dac msgs)) logged
            ∙ append_assoc (log self.udp_socket) (bs ∷ []) _,
      )

-- The broadcast of a DAC whose status has only declared flags is taken for that same DAC by
-- `Addressed::from_broadcast`, if `from_bits_truncate` drops the undeclared bits.
pub from_broadcast-broadcast_of :
    ⦃f : Bitflags⦄ (laws : DropsUnknownBits f) (dac : Addressed)
    → HasKnownFlags dac.status
    → from_broadcast (broadcast_of dac) ≡ ok dac
unfolding from_broadcast broadcast_of
from_broadcast-broadcast_of laws dac h = rw (status_from-to laws dac.status h) refl
