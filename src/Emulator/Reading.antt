-- ===== src/Emulator/Reading.antt =====
-- The steps in which the emulator reads one command: the first byte, the number of points, and the
-- bytes of the command.
use ether_dream.Base.{
  ℕ, ◌+◌, ◌*◌, ◌≤◌, ◌≡◌, ◌∙◌, refl, sym, ap, arith, List, [], ◌∷◌, ◌++◌, append-nil, length,
  length-append, drop, length-drop, le→leb, some, ok,
}
use ether_dream.Io.Bytes.{Bytes, le_bytes, IsU16}
use ether_dream.Io.Reader.{ReadBytesExt, ReadFromBytes, ReadsLittleEndian, read_bytes, read_u16}
use ether_dream.Io.Slice.{slice_read}
use ether_dream.Io.Codec.{Reads, Reads-u16}
use ether_dream.Protocol.{DacPoint, dac_point_size_bytes}
use ether_dream.Protocol.Layout.{point_bytes}
use ether_dream.Protocol.Command.{Data, data_start_byte}
use ether_dream.Protocol.Command.Layout.{points_bytes, data_bytes, IsData}
use ether_dream.Protocol.Command.Decode.{
  read_n_points, prepare_stream_from_bytes, begin_from_bytes, point_rate_from_bytes,
  data_from_bytes, stop_from_bytes, emergency_stop_from_bytes, clear_emergency_stop_from_bytes,
  ping_from_bytes,
}
use ether_dream.Protocol.Command.RoundTrip.{Reads-data}
use ether_dream.Client.Tcp.{TcpStream}
use ether_dream.Client.Receiving.{read_exact-append}
use ether_dream.Emulator.{Command, data_points, known}
use ether_dream.Emulator.Interpret.{
  Tcp, Interpretation, peek, overwrite, parsed, read_sized, read_data_sized, read_data_command,
  read_by_start_byte, read_from_tcp_stream,
}

length-points_bytes : (ps : List DacPoint) → length (points_bytes ps) ≡ length ps * 18
unfolding points_bytes point_bytes le_bytes
length-points_bytes [] = refl
length-points_bytes (p ∷ ps) = omega (arith, length-points_bytes ps)

pub length-data_bytes : (c : Data) → length (data_bytes c) ≡ 3 + length c.points * 18
unfolding data_bytes le_bytes
length-data_bytes c = omega (arith, length-points_bytes c.points)

-- `after` is `t` with `rest` left to read: nothing is sent, and the buffer keeps its size.
pub record Leaves (t : Tcp) (rest : Bytes) (after : Tcp) : Type 0 where
  pub stream : after.stream ≡ record t.stream { incoming = rest }
  pub peeks : after.peeks ≡ t.peeks
  pub size : length after.bytes ≡ length t.bytes

Leaves-trans :
    {t t' t'' : Tcp} {xs ys : Bytes} → Leaves t xs t' → Leaves t' ys t'' → Leaves t ys t''
Leaves-trans {t} {t'} {t''} {xs} {ys} h h' = record {
  stream = h'.stream ∙ ap (λ (s : TcpStream). record s { incoming = ys }) h.stream;
  peeks = h'.peeks ∙ h.peeks;
  size = h'.size ∙ h.size;
}

pub length-overwrite :
    (xs bytes : Bytes) → length xs ≤ length bytes → length (overwrite xs bytes) ≡ length bytes
length-overwrite xs bytes h =
    omega (arith, length-append xs (drop (length xs) bytes), length-drop (length xs) bytes)

-- The command `c` is read off the stream, and `rest` is left.
abbrev pub Interprets : Tcp → Bytes → Interpretation → Command → Type 0
Interprets t rest result c =
    (after : Tcp) × (result ≡ some (ok (known c), after)) × Leaves t rest after

module _ ⦃r : ReadBytesExt Bytes⦄ where
  parsed-Reads :
      {P : Type 0} ⦃p : ReadFromBytes Bytes P⦄ (wrap : P → Command) (t : Tcp) (s : TcpStream)
      {bs : Bytes} {c : P}
      → Reads (read_bytes {P = P}) bs c
      → parsed wrap t (ok bs, s)
        ≡ (ok (known (wrap c)), record t { stream = s; bytes = overwrite bs t.bytes })
  unfolding parsed
  parsed-Reads wrap t s {bs} {c} h = rw (parsed, h.at (drop (length bs) t.bytes)) refl

  read_sized-Reads :
      {P : Type 0} ⦃p : ReadFromBytes Bytes P⦄ (wrap : P → Command) (t : Tcp) {bs : Bytes}
      (rest : Bytes) {c : P}
      → Reads (read_bytes {P = P}) bs c
      → length bs ≤ length t.bytes
      → t.stream.incoming ≡ bs ++ rest
      → Interprets t rest (read_sized wrap (length bs) t) (wrap c)
  unfolding read_sized
  read_sized-Reads wrap t {bs} rest h fits e = (
    record t { stream = record t.stream { incoming = rest }; bytes = overwrite bs t.bytes },
    rw (le→leb _ _ fits, read_exact-append bs rest t.stream e, parsed-Reads wrap t _ h) refl,
    record { stream = refl; peeks = refl; size = length-overwrite bs t.bytes fits },
  )

  -- The first byte decides.
  pub read_from_tcp_stream-starts :
      (t : Tcp) (b : ℕ) (more : Bytes)
      → t.peeks ≡ []
      → t.stream.incoming ≡ b ∷ more
      → 1 ≤ length t.bytes
      → (seen : Tcp) × (read_from_tcp_stream t ≡ read_by_start_byte b seen)
        × Leaves t t.stream.incoming seen
  unfolding read_from_tcp_stream peek
  read_from_tcp_stream-starts t b more free e fits = (
    record t { bytes = overwrite (b ∷ []) (overwrite (0 ∷ []) t.bytes) },
    rw (le→leb _ _ fits, free, e) refl,
    record { stream = refl; peeks = refl; size = omega (arith, length-drop 1 t.bytes, fits) },
  )

  -- The number of points is peeked before the command is read.
  pub read_data_command-counts :
      (le : ReadsLittleEndian slice_read r) (t : Tcp) (b n : ℕ) (more : Bytes)
      → t.peeks ≡ []
      → IsU16 n
      → t.stream.incoming ≡ b ∷ le_bytes 2 n ++ more
      → 3 ≤ length t.bytes
      → (seen : Tcp) × (read_data_command t
          ≡ read_sized {P = Data} data_points (1 + 2 + n * dac_point_size_bytes) seen)
        × Leaves t t.stream.incoming seen
  unfolding read_data_command read_data_sized peek le_bytes read_n_points
  read_data_command-counts le t b n more free h e fits =
      let counted : read_u16 (le_bytes 2 n) ≡ ok (n, []) =
        rw append-nil at ((Reads-u16 le n h).at []) in
      (
        record t { bytes = overwrite (b ∷ le_bytes 2 n) t.bytes },
        rw (le→leb _ _ fits, free, e, counted) refl,
        record { stream = refl; peeks = refl; size = omega (arith, length-drop 3 t.bytes, fits) },
      )

  -- Put together: the first byte, and then an arm of the match.
  pub read_from_tcp_stream-arm :
      (t : Tcp) {b : ℕ} {more rest : Bytes} {c : Command}
      → t.peeks ≡ []
      → t.stream.incoming ≡ b ∷ more
      → 1 ≤ length t.bytes
      → ((seen : Tcp)
          → Leaves t t.stream.incoming seen
          → Interprets seen rest (read_by_start_byte b seen) c)
      → Interprets t rest (read_from_tcp_stream t) c
  read_from_tcp_stream-arm t {b} {more} free e fits arm =
      let (seen, starts, l) = read_from_tcp_stream-starts t b more free e fits in
      let (after, reads, l') = arm seen l in (after, starts ∙ reads, Leaves-trans l l')

  -- The arms of the commands of a constant size.
  pub read_sized-arm :
      {P : Type 0} ⦃p : ReadFromBytes Bytes P⦄ (wrap : P → Command) (t : Tcp) {bs : Bytes}
      (rest : Bytes) {c : P}
      → Reads (read_bytes {P = P}) bs c
      → length bs ≤ length t.bytes
      → t.stream.incoming ≡ bs ++ rest
      → (seen : Tcp) → Leaves t t.stream.incoming seen
      → Interprets seen rest (read_sized wrap (length bs) seen) (wrap c)
  read_sized-arm wrap t rest h fits e seen l =
      read_sized-Reads wrap seen rest h (omega (arith, l.size, fits))
        (ap (λ (s : TcpStream). s.incoming) l.stream ∙ e)

  pub read_data-arm :
      (le : ReadsLittleEndian slice_read r) (c : Data) (t : Tcp) (rest : Bytes)
      → IsData c
      → t.peeks ≡ []
      → t.stream.incoming ≡ data_bytes c ++ rest
      → length (data_bytes c) ≤ length t.bytes
      → (seen : Tcp) → Leaves t t.stream.incoming seen
      → Interprets seen rest (read_data_command seen) (data_points c)
  unfolding data_bytes le_bytes
  read_data-arm le c t rest h free e fits seen l =
      let size = length-data_bytes c in
      let e' : seen.stream.incoming ≡ data_bytes c ++ rest =
        ap (λ (s : TcpStream). s.incoming) l.stream ∙ e in
      let (counted, counts, l') =
        read_data_command-counts le seen data_start_byte (length c.points)
          (points_bytes c.points ++ rest) (l.peeks ∙ free) (omega arith) e'
          (omega (arith, size, l.size, fits)) in
      let (after, reads, l'') =
        read_sized-Reads data_points counted rest (Reads-data le c h)
          (omega (arith, l.size, l'.size, fits))
          (ap (λ (s : TcpStream). s.incoming) l'.stream ∙ e') in
      (after, counts ∙ rw (sym size) reads, Leaves-trans l' l'')
