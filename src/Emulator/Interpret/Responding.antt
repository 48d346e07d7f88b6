-- ===== src/Emulator/Interpret/Responding.antt =====
-- The response of dac-emulator/src/stream.rs, and the buffer that it goes through.
use ether_dream.Base.{
  ℕ, ◌≤◌, ◌≡◌, refl, arith, length, append-nil, take, le→leb, some, Result, ok, err,
}
use ether_dream.Io.{IoError}
use ether_dream.Io.Bytes.{Bytes}
use ether_dream.Io.Slice.{SliceMut, slice_write}
use ether_dream.Io.Writer.{WriteBytesExt, WritesLittleEndian}
use ether_dream.Protocol.{DacResponse}
use ether_dream.Protocol.Command.Decode.{
  prepare_stream_from_bytes, begin_from_bytes, point_rate_from_bytes, data_from_bytes,
  stop_from_bytes, emergency_stop_from_bytes, clear_emergency_stop_from_bytes, ping_from_bytes,
}
use ether_dream.Client.Tcp.{TcpStream, write}
use ether_dream.Emulator.Exchange.{encoded, length-response_bytes}
use ether_dream.Protocol.Layout.{response_bytes}
use ether_dream.Protocol.Isomorphism.{response_bytes-IsByte}
use ether_dream.Emulator.Interpret.{Tcp, overwrite, respond, written}
use ether_dream.Emulator.Interpret.Buffer.{HasBuffer, overwrite-HasBuffer}

write-incoming : (xs : Bytes) (s : TcpStream) → (write xs s).1.incoming ≡ s.incoming
unfolding write
write-incoming xs s = ground arith

-- The response is written into the buffer and sent.
module _ ⦃w : WriteBytesExt SliceMut⦄ (writes : WritesLittleEndian slice_write w) where
  written-HasBuffer :
      {size : ℕ} (xs : Bytes) (t : Tcp)
      → HasBuffer size t
      → HasBuffer size (written t (write xs t.stream)).1
  unfolding written
  written-HasBuffer {size} xs t h = sent (write xs t.stream) (write-incoming xs t.stream)
    where
      sent :
          (o : Result IoError ℕ × TcpStream)
          → o.1.incoming ≡ t.stream.incoming
          → HasBuffer size (written t o).1
      sent (ok n, s) same = record {
        sized = h.sized;
        bytes = h.bytes;
        incoming = rw same h.incoming;
      }
      sent (err e, s) same = record {
        sized = h.sized;
        bytes = h.bytes;
        incoming = rw same h.incoming;
      }

  pub respond-HasBuffer :
      {size : ℕ} (d : DacResponse) (t : Tcp)
      → 22 ≤ size
      → HasBuffer size t
      → (result : Result IoError (Unit {0})) × (after : Tcp) × (respond d t ≡ some (result, after))
        × HasBuffer size after
  unfolding respond
  respond-HasBuffer {size} d t room h =
      let fits : 22 ≤ length t.bytes = omega (arith, h.sized, room) in
      let t' : Tcp = record t { bytes = overwrite (response_bytes d) t.bytes } in
      let (result, after) =
        written t' (write (take 22 (overwrite (response_bytes d) t.bytes)) t.stream) in
      (
        result,
        after,
        rw (le→leb _ _ fits, encoded writes d t.bytes fits, append-nil) refl,
        written-HasBuffer (take 22 (overwrite (response_bytes d) t.bytes)) t' (
            overwrite-HasBuffer (response_bytes d) t h (response_bytes-IsByte d)
              (omega (arith, room, length-response_bytes d))),
      )
