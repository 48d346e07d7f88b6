-- ===== src/Emulator/Interpret/Total.antt =====
-- `read_from_tcp_stream` of dac-emulator/src/stream.rs on whatever comes in, with a buffer for the
-- largest `Data` command there is.
use ether_dream.Base.{
  ℕ, zero, suc, ◌+◌, ◌*◌, ◌^◌, ◌≤◌, ◌<◌, ◌≡◌, refl, arith, [], ◌∷◌, length, length-take, take, drop,
  All, All-take, All-drop, leb, le→leb, Bool-cases, ◌==◌, ◌⊎◌, inl, inr, if◌then◌else◌, some,
  Result, ok, err,
}
use ether_dream.Io.{IoError, IoResult, invalid_data}
use ether_dream.Io.Bytes.{Bytes, IsByte}
use ether_dream.Io.Reader.{ReadBytesExt, ReadFromBytes, read_bytes, ReadsLittleEndian}
use ether_dream.Io.Slice.{slice_read}
use ether_dream.Io.Spell.{Spells-number, Spells}
use ether_dream.Protocol.Command.{Data}
use ether_dream.Protocol.Command.Decode.{
  read_n_points, prepare_stream_from_bytes, begin_from_bytes, point_rate_from_bytes,
  data_from_bytes, stop_from_bytes, emergency_stop_from_bytes, clear_emergency_stop_from_bytes,
  ping_from_bytes,
}
use ether_dream.Client.Tcp.{read_exact}
use ether_dream.Emulator.{Command, InterpretedCommand, data_points, known, unknown}
use ether_dream.Emulator.Interpret.{
  Tcp, overwrite, peek, Interpretation, parsed, read_sized, read_data_sized, read_data_peeked,
  read_data_command, read_by_start_byte, first_byte, peeked_first, read_from_tcp_stream,
}
use ether_dream.Emulator.Interpret.Buffer.{HasBuffer, IsRoomy, overwrite-HasBuffer, peek-HasBuffer}
use ether_dream.Emulator.Interpret.Carried.{
  IsCarried, Carries, Spells-read_prepare_stream, Spells-read_begin, Spells-read_point_rate,
  Spells-read_data, Spells-read_stop, Spells-read_emergency_stop, Spells-read_clear_emergency_stop,
  Spells-read_ping,
}

-- A buffer of the same size, and a result whose fields are in range.
abbrev Settled : ℕ → Result IoError InterpretedCommand × Tcp → Type 0
Settled size (result, t) = HasBuffer size t × Carries result

abbrev pub Settles : ℕ → Interpretation → Type 0
Settles size o =
    (result : Result IoError InterpretedCommand) × (t : Tcp) × (o ≡ some (result, t))
    × Settled size (result, t)

Result-cases : {E A : Type 0} (o : Result E A) → ((a : A) × (o ≡ ok a)) ⊎ ((e : E) × (o ≡ err e))
Result-cases (ok a) = inl (a, refl)
Result-cases (err e) = inr (e, refl)

module _ ⦃r : ReadBytesExt Bytes⦄ where
  parsed-Settled :
      {P : Type 0} ⦃p : ReadFromBytes Bytes P⦄ (wrap : P → Command)
      → Spells (read_bytes {P = P}) (λ bs v. IsCarried (known (wrap v)))
      → {size : ℕ} (n : ℕ) (t : Tcp) → n ≤ size
      → HasBuffer size t
      → Settled size (parsed wrap t (read_exact n t.stream))
  unfolding parsed read_exact
  parsed-Settled {P} wrap reads {size} n t fits h =
      elim (Bool-cases (leb n (length t.stream.incoming))) [
        | inl enough ↦
            let xs = take n t.stream.incoming in
            let left : HasBuffer size
                (record t { stream = record t.stream { incoming = drop n t.stream.incoming } }) =
              record {
                sized = h.sized;
                bytes = h.bytes;
                incoming = All-drop IsByte n t.stream.incoming h.incoming;
              } in
            let after =
              overwrite-HasBuffer xs _ left (All-take IsByte n t.stream.incoming h.incoming)
                (omega (arith, fits, length-take n t.stream.incoming)) in
            elim (Result-cases (read_bytes {P = P} (overwrite xs t.bytes))) [
              | inl ((v, rest), e) ↦
                  let (bs, split, carried, others) =
                    reads.at (overwrite xs t.bytes) after.bytes e in
                  rw (enough, parsed, e) (after, carried)
              | inr (v, e) ↦ rw (enough, parsed, e) (after, tt)
            ]
        | inr short ↦ rw short (record { sized = h.sized; bytes = h.bytes; incoming = tt }, tt)
      ]

  read_sized-Settles :
      {P : Type 0} ⦃p : ReadFromBytes Bytes P⦄ (wrap : P → Command)
      → Spells (read_bytes {P = P}) (λ bs v. IsCarried (known (wrap v)))
      → {size : ℕ} (n : ℕ) (t : Tcp) → n ≤ size
      → HasBuffer size t
      → Settles size (read_sized wrap n t)
  unfolding read_sized
  read_sized-Settles wrap reads {size} n t fits h =
      let room : n ≤ length t.bytes = omega (arith, fits, h.sized) in
      let (result, after) = parsed wrap t (read_exact n t.stream) in
      (result, after, rw (le→leb _ _ room) refl, parsed-Settled wrap reads n t fits h)

  module _ (le : ReadsLittleEndian slice_read r) where
    read_data_sized-Settles :
        {size : ℕ} (o : IoResult (ℕ × Bytes)) (t : Tcp)
        → ((n : ℕ) (rest : Bytes) → o ≡ ok (n, rest) → n < 2 ^ 16)
        → IsRoomy size
        → HasBuffer size t
        → Settles size (read_data_sized o t)
    unfolding read_data_sized
    read_data_sized-Settles (err e) t counts room h = (err e, t, refl, (h, tt))
    read_data_sized-Settles (ok (n, rest)) t counts room h =
        let few = counts n rest refl in
        read_sized-Settles {P = Data} data_points (Spells-read_data le) (1 + 2 + n * 18) t
          (omega (arith, few, room)) h

    -- The number of points is a `u16`.
    read_n_points-lt :
        (s : Bytes)
        → All IsByte s
        → (n : ℕ) (rest : Bytes) → read_n_points s ≡ ok (n, rest)
        → n < 2 ^ 16
    unfolding read_n_points
    read_n_points-lt s bytes n rest e =
        let (bs, split, (few, same), others) = (Spells-number le 2 r.u16 le.u16_law).at s bytes e in
        few

    read_data_command-Settles :
        {size : ℕ} (t : Tcp) → IsRoomy size → HasBuffer size t → Settles size (read_data_command t)
    unfolding read_data_command read_data_peeked
    read_data_command-Settles {size} t room h =
        let three : 3 ≤ length t.bytes = omega (arith, h.sized, room) in
        rw (le→leb _ _ three) (peeked (peek 3 t) (peek-HasBuffer 3 t (omega (arith, room)) h))
      where
        peeked :
            (o : Result IoError ℕ × Tcp) → HasBuffer size o.1 → Settles size (read_data_peeked o)
        peeked (err e, t') h' = (err e, t', refl, (h', tt))
        peeked (ok k, t') h' =
            let two = take 2 (drop 1 t'.bytes) in
            let bytes = All-take IsByte 2 _ (All-drop IsByte 1 t'.bytes h'.bytes) in
            read_data_sized-Settles (read_n_points two) t' (read_n_points-lt two bytes) room h'

    -- An arm of the match.
    arm :
        {size : ℕ} (b x : ℕ) (k l : Interpretation)
        → Settles size k
        → Settles size l
        → Settles size (if b == x then k else l)
    arm b x k l hk hl = elim (Bool-cases (b == x)) [
      | inl same ↦ rw same hk
      | inr other ↦ rw other hl
    ]

    read_by_start_byte-Settles :
        {size : ℕ} (b : ℕ) (t : Tcp)
        → IsRoomy size
        → HasBuffer size t
        → IsByte b
        → Settles size (read_by_start_byte b t)
    unfolding read_by_start_byte
    read_by_start_byte-Settles b t room h byte =
        arm b _ _ _
          (read_sized-Settles _ (Spells-read_prepare_stream le) _ t (omega (arith, room)) h)
          (arm b _ _ _ (read_sized-Settles _ (Spells-read_begin le) _ t (omega (arith, room)) h) (
            arm b _ _ _
              (read_sized-Settles _ (Spells-read_point_rate le) _ t (omega (arith, room)) h)
              (arm b _ _ _ (read_data_command-Settles t room h) (
                arm b _ _ _ (read_sized-Settles _ (Spells-read_stop le) _ t (omega (arith, room)) h)
                  (arm b _ _ _
                    (read_sized-Settles _ (Spells-read_emergency_stop le) _ t (omega (arith, room))
                      h)
                    (arm b _ _ _
                      (read_sized-Settles _ (Spells-read_clear_emergency_stop le) _ t
                        (omega (arith, room)) h)
                      (arm b _ _ _
                        (read_sized-Settles _ (Spells-read_ping le) _ t (omega (arith, room)) h)
                        (ok (unknown b), t, refl, (h, byte)))))))))

    pub read_from_tcp_stream-Settles :
        {size : ℕ} (t : Tcp)
        → IsRoomy size
        → HasBuffer size t
        → Settles size (read_from_tcp_stream t)
    unfolding read_from_tcp_stream peeked_first first_byte
    read_from_tcp_stream-Settles {size} t room h =
        let one : 1 ≤ length t.bytes = omega (arith, h.sized, room) in
        let cleared = overwrite-HasBuffer (0 ∷ []) t h (omega arith, tt) (omega (arith, room)) in
        let reset : Tcp = record t { bytes = overwrite (0 ∷ []) t.bytes } in
        rw (le→leb _ _ one)
          (peeked (peek 1 reset) (peek-HasBuffer 1 reset (omega (arith, room)) cleared))
      where
        first :
            (bs : Bytes) (t' : Tcp)
            → 1 ≤ length bs
            → HasBuffer size t'
            → All IsByte bs
            → Settles size (first_byte bs t')
        first [] t' some_bytes h' bytes = absurd (omega (arith, some_bytes))
        first (b ∷ bs) t' some_bytes h' (byte, others) =
            read_by_start_byte-Settles b t' room h' byte

        peeked : (o : Result IoError ℕ × Tcp) → HasBuffer size o.1 → Settles size (peeked_first o)
        peeked (err e, t') h' = (err e, t', refl, (h', tt))
        peeked (ok zero, t') h' = (err invalid_data, t', refl, (h', tt))
        peeked (ok (suc k), t') h' = first t'.bytes t' (omega (arith, h'.sized, room)) h' h'.bytes
