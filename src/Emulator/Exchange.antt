-- ===== src/Emulator/Exchange.antt =====
-- Whole exchanges: the emulator answers the commands that a client sends, in order.
pub mod Refused
use ether_dream.Base.{
  ℕ, zero, suc, ◌≤◌, ◌≡◌, ◌∙◌, refl, sym, ap, arith, List, [], ◌∷◌, ◌++◌, append-nil, append_assoc,
  map, All, length, length-take, take, take-length-append, le→leb, Option, none, some, Result, ok,
  err,
}
use ether_dream.Io.{IoError}
use ether_dream.Io.Bytes.{Bytes, le_bytes}
use ether_dream.Io.Reader.{ReadBytesExt, ReadsLittleEndian}
use ether_dream.Io.Writer.{WriteBytesExt, WritesLittleEndian, write_bytes}
use ether_dream.Io.Slice.{slice_read, SliceMut, slice_write}
use ether_dream.Io.Fill.{Writes-fills}
use ether_dream.Protocol.{DacResponse}
use ether_dream.Protocol.Layout.{response_bytes, status_bytes}
use ether_dream.Protocol.Encode.{dac_response_to_bytes}
use ether_dream.Protocol.RoundTrip.{Writes-response}
use ether_dream.Dac.Command.{Command}
use ether_dream.Dac.Command.RoundTrip.{IsCommand, command_bytes}
use ether_dream.Client.Tcp.{TcpStream}
use ether_dream.Client.Sending.{write_whole}
use ether_dream.Client.View.{commands_bytes}
use ether_dream.Client.Receiving.{responses_bytes}
use ether_dream.Emulator.{Shared, known}
use ether_dream.Emulator.Process.{process_interpreted_command}
use ether_dream.Emulator.Interpret.{Tcp, overwrite, respond, read_command_via_tcp_and_respond}
use ether_dream.Emulator.Run.{process_all}
use ether_dream.Emulator.Reading.{length-overwrite}
use ether_dream.Emulator.Wire.{emulated, read_from_tcp_stream-known}

pub length-response_bytes : (d : DacResponse) → length (response_bytes d) ≡ 22
unfolding response_bytes status_bytes le_bytes
length-response_bytes d = refl

-- `after` is `t` with `bs` sent and `rest` left to read.
pub record Answered (t : Tcp) (bs rest : Bytes) (after : Tcp) : Type 0 where
  pub stream : after.stream ≡ record t.stream { sent = t.stream.sent ++ bs; incoming = rest }
  pub peeks : after.peeks ≡ t.peeks
  pub size : length after.bytes ≡ length t.bytes

pub Answered-then :
    {t t' t'' : Tcp} {xs ys more rest : Bytes}
    → Answered t xs more t'
    → Answered t' ys rest t''
    → Answered t (xs ++ ys) rest t''
Answered-then {t} {t'} {t''} {xs} {ys} {more} {rest} h h' = record {
  stream =
      h'.stream
      ∙ ap (λ (x : TcpStream). record x { sent = x.sent ++ ys; incoming = rest }) h.stream
      ∙ ap (λ (out : Bytes). record t.stream { sent = out; incoming = rest })
          (append_assoc t.stream.sent xs ys);
  peeks = h'.peeks ∙ h.peeks;
  size = h'.size ∙ h.size;
}

module _ ⦃w : WriteBytesExt SliceMut⦄ (writes : WritesLittleEndian slice_write w) where
  pub encoded :
      (d : DacResponse) (old : Bytes)
      → 22 ≤ length old
      → write_bytes {W = SliceMut} d (record { written = []; left = take 22 old })
        ≡ ok (tt, record { written = response_bytes d; left = [] })
  encoded d old fits =
      Writes-fills (take 22 old) (Writes-response writes d)
        (omega (arith, length-response_bytes d, length-take 22 old))

  respond_lem :
      (d : DacResponse) (t : Tcp)
      → 22 ≤ length t.bytes
      → t.stream.outcomes ≡ []
      → (after : Tcp) × (respond d t ≡ some (ok tt, after))
        × Answered t (response_bytes d) t.stream.incoming after
  unfolding respond
  respond_lem d t fits free =
      let size = length-response_bytes d in
      let out : take 22 (overwrite (response_bytes d) t.bytes) ≡ response_bytes d =
        ap (λ k. take k (overwrite (response_bytes d) t.bytes)) (sym size)
        ∙ take-length-append (response_bytes d) _ in
      (
        record t {
          stream = record t.stream { sent = t.stream.sent ++ response_bytes d };
          bytes = overwrite (response_bytes d) t.bytes;
        },
        rw
            (
              le→leb _ _ fits,
              encoded d t.bytes fits,
              append-nil,
              out,
              write_whole (response_bytes d) t.stream free,
            )
            refl,
        record {
          stream = refl;
          peeks = refl;
          size = length-overwrite (response_bytes d) t.bytes (omega (arith, size, fits));
        },
      )

-- Rounds of `read_command_via_tcp_and_respond`, one for each command that the stream holds: the loop
-- of `next_points` while no points are due.
unfoldable pub serve :
    ⦃w : WriteBytesExt SliceMut⦄ ⦃r : ReadBytesExt Bytes⦄
    → (rounds : ℕ) → Shared
    → Tcp
    → Option (Result IoError (Unit {0}) × Shared × Tcp)
serve zero s t = some (ok tt, s, t)
serve (suc rounds) s t = elim (read_command_via_tcp_and_respond s t) [
  | none ↦ none
  | some (err e, s', t') ↦ some (err e, s', t')
  | some (ok _, s', t') ↦ serve rounds s' t'
]

-- The emulator can hold the command, and has room for a response.
abbrev pub FitsIn : ℕ → Command → Type 0
FitsIn size c = IsCommand c × (length (command_bytes c) ≤ size)

module _ ⦃w : WriteBytesExt SliceMut⦄ ⦃r : ReadBytesExt Bytes⦄
    (writes : WritesLittleEndian slice_write w) (reads : ReadsLittleEndian slice_read r) where
  respond_once :
      (c : Command) (s : Shared) (t : Tcp) (rest : Bytes)
      → FitsIn (length t.bytes) c
      → 22 ≤ length t.bytes
      → t.peeks ≡ []
      → t.stream.outcomes ≡ []
      → t.stream.incoming ≡ command_bytes c ++ rest
      → let (d, s') = process_interpreted_command (known (emulated c)) s in
        (after : Tcp) × (read_command_via_tcp_and_respond s t ≡ some (ok tt, s', after))
        × Answered t (response_bytes d) rest after
  unfolding read_command_via_tcp_and_respond
  respond_once c s t rest (h, fits) room free whole e =
      let (d, s') = process_interpreted_command (known (emulated c)) s in
      let (t', read, l) = read_from_tcp_stream-known reads c t rest h free e fits in
      let (after, written, l') =
        respond_lem writes d t' (omega (arith, l.size, room))
          (ap (λ (x : TcpStream). x.outcomes) l.stream ∙ whole) in
      (
        after,
        rw (read, written) refl,
        record {
          stream =
              l'.stream
              ∙ ap (λ (x : TcpStream). record x { sent = x.sent ++ response_bytes d }) l.stream;
          peeks = l'.peeks ∙ l.peeks;
          size = l'.size ∙ l.size;
        },
      )

  pub serve-next :
      (rounds : ℕ) (s : Shared) (t : Tcp) {s' : Shared} {t' : Tcp}
      → read_command_via_tcp_and_respond s t ≡ some (ok tt, s', t')
      → serve (suc rounds) s t ≡ serve rounds s' t'
  unfolding serve
  serve-next rounds s t h = rw (serve, h) refl

  -- If the stream holds the encodings of a list of commands whose fields are in range and which
  -- fit the emulator's buffer, the buffer has room for a response, no call of `write` is short
  -- and every byte has arrived: as many rounds of `read_command_via_tcp_and_respond` as there are
  -- commands end in success, process the commands in order, send the responses in order, and
  -- leave nothing to read.
  pub serve_lem :
      (size : ℕ) (cs : List Command) (s : Shared) (t : Tcp)
      → length t.bytes ≡ size
      → 22 ≤ size
      → All (FitsIn size) cs
      → t.peeks ≡ []
      → t.stream.outcomes ≡ []
      → t.stream.incoming ≡ commands_bytes cs
      → let (ds, s') = process_all (map (λ c. known (emulated c)) cs) s in
        (after : Tcp) × (serve (length cs) s t ≡ some (ok tt, s', after))
        × Answered t (responses_bytes ds) [] after
  unfolding serve process_all responses_bytes commands_bytes
  serve_lem size [] s t sized room fit free whole e = (
    t,
    refl,
    record {
      stream =
          ap (λ (x : Bytes). record t.stream { incoming = x }) e
          ∙ ap (λ (x : Bytes). record t.stream { sent = x; incoming = [] })
              (sym (append-nil t.stream.sent));
      peeks = refl;
      size = refl;
    },
  )
  serve_lem size (c ∷ cs) s t sized room ((h, fits), fit) free whole e =
      let (t', first, l) =
        respond_once c s t (commands_bytes cs) (h, omega (arith, sized, fits))
          (omega (arith, sized, room)) free whole e in
      let (after, others, l') =
        serve_lem size cs (process_interpreted_command (known (emulated c)) s).1 t' (l.size ∙ sized)
          room fit (l.peeks ∙ free) (ap (λ (x : TcpStream). x.outcomes) l.stream ∙ whole)
          (ap (λ (x : TcpStream). x.incoming) l.stream) in
      (after, serve-next _ s t first ∙ others, Answered-then l l')
