-- ===== src/Emulator/Exchange/Refused.antt =====
-- A byte that starts no command, in the rounds of `read_command_via_tcp_and_respond`.
use ether_dream.Base.{
  ◌⊎◌, ℕ, zero, suc, ◌≤◌, ◌≡◌, ◌∙◌, refl, sym, ap, arith, [], ◌∷◌, ◌++◌, append-nil, length,
  replicate, false, some, ok,
}
use ether_dream.Io.Bytes.{Bytes}
use ether_dream.Io.Reader.{ReadBytesExt, ReadsLittleEndian}
use ether_dream.Io.Writer.{WriteBytesExt, WritesLittleEndian}
use ether_dream.Io.Slice.{slice_read, SliceMut, slice_write}
use ether_dream.Protocol.{DacResponse, nak_invalid}
use ether_dream.Protocol.Layout.{response_bytes}
use ether_dream.Protocol.Command.{emergency_stop_alt_start_byte}
use ether_dream.Dac.Convert.{status_to_protocol}
use ether_dream.Dac.Command.RoundTrip.{is_start_byte}
use ether_dream.Client.Tcp.{TcpStream}
use ether_dream.Client.Receiving.{responses_bytes}
use ether_dream.Emulator.{Shared}
use ether_dream.Emulator.Process.{status_of, process_interpreted_command}
use ether_dream.Emulator.Interpret.{Tcp, read_command_via_tcp_and_respond}
use ether_dream.Emulator.Wire.{read_from_tcp_stream-unknown}
use ether_dream.Emulator.Exchange.{Answered, Answered-then, respond_lem, serve, serve-next}

-- The response to a byte that starts no command.
abbrev pub refusal : ℕ → Shared → DacResponse
refusal b s = record {
  response = nak_invalid;
  command = b;
  dac_status = status_to_protocol (status_of s);
}

module _ ⦃w : WriteBytesExt SliceMut⦄ ⦃r : ReadBytesExt Bytes⦄
    (writes : WritesLittleEndian slice_write w) (reads : ReadsLittleEndian slice_read r) where
  refuse_once :
      (b : ℕ) (more : Bytes) (s : Shared) (t : Tcp)
      → 22 ≤ length t.bytes
      → t.peeks ≡ []
      → t.stream.outcomes ≡ []
      → t.stream.incoming ≡ b ∷ more
      → (is_start_byte b ≡ false) ⊎ (b ≡ emergency_stop_alt_start_byte)
      → (after : Tcp) × (read_command_via_tcp_and_respond s t ≡ some (ok tt, s, after))
        × Answered t (response_bytes (refusal b s)) (b ∷ more) after
  unfolding read_command_via_tcp_and_respond process_interpreted_command
  refuse_once b more s t room free whole e strange =
      let (t', read, l) =
        read_from_tcp_stream-unknown reads t b more free e (omega (arith, room)) strange in
      let (after, written, l') =
        respond_lem writes (refusal b s) t' (omega (arith, l.size, room))
          (ap (λ (x : TcpStream). x.outcomes) l.stream ∙ whole) in
      (
        after,
        rw (read, written) refl,
        record {
          stream =
              l'.stream
              ∙ ap (λ (x : TcpStream). record x { sent = x.sent ++ response_bytes (refusal b s) })
                  l.stream
              ∙ ap
                  (λ (i : Bytes). record t.stream {
                    sent = t.stream.sent ++ response_bytes (refusal b s);
                    incoming = i;
                  })
                  e;
          peeks = l'.peeks ∙ l.peeks;
          size = l'.size ∙ l.size;
        },
      )

  -- Any number of rounds refuses it again, and nothing of what comes behind it is read.
  pub serve-refused :
      (n b : ℕ) (more : Bytes) (s : Shared) (t : Tcp)
      → 22 ≤ length t.bytes
      → t.peeks ≡ []
      → t.stream.outcomes ≡ []
      → t.stream.incoming ≡ b ∷ more
      → (is_start_byte b ≡ false) ⊎ (b ≡ emergency_stop_alt_start_byte)
      → (after : Tcp) × (serve n s t ≡ some (ok tt, s, after))
        × Answered t (responses_bytes (replicate n (refusal b s))) (b ∷ more) after
  unfolding serve responses_bytes
  serve-refused zero b more s t room free whole e strange = (
    t,
    refl,
    record {
      stream =
          ap (λ (x : Bytes). record t.stream { incoming = x }) e
          ∙ ap (λ (x : Bytes). record t.stream { sent = x; incoming = b ∷ more })
              (sym (append-nil t.stream.sent));
      peeks = refl;
      size = refl;
    },
  )
  serve-refused (suc n) b more s t room free whole e strange =
      let (t', first, l) = refuse_once b more s t room free whole e strange in
      let (after, others, l') =
        serve-refused n b more s t' (omega (arith, l.size, room)) (l.peeks ∙ free)
          (ap (λ (x : TcpStream). x.outcomes) l.stream ∙ whole)
          (ap (λ (x : TcpStream). x.incoming) l.stream) strange in
      (after, serve-next writes reads n s t first ∙ others, Answered-then l l')
