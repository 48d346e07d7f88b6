-- ===== src/Emulator/Interpret/Buffer.antt =====
-- The buffer that dac-emulator/src/stream.rs reads into: what `peek` leaves of it.
use ether_dream.Base.{
  ℕ, ◌+◌, ◌*◌, ◌≤◌, ◌≡◌, arith, min, List, [], ◌∷◌, length, length-take, length-drop, length-append,
  take, drop, All, All-append, All-take, All-drop,
}
use ether_dream.Io.Bytes.{Bytes, IsByte}
use ether_dream.Protocol.{dac_point_size_bytes}
use ether_dream.Protocol.Command.Decode.{
  prepare_stream_from_bytes, begin_from_bytes, point_rate_from_bytes, data_from_bytes,
  stop_from_bytes, emergency_stop_from_bytes, clear_emergency_stop_from_bytes, ping_from_bytes,
}
use ether_dream.Emulator.Interpret.{
  PeekOutcome, arrived, refuses, Tcp, overwrite, peek_with, next_peek, peek,
}

-- The buffer has this size, and it and the stream are made of bytes.
pub record HasBuffer (size : ℕ) (t : Tcp) : Type 0 where
  pub sized : length t.bytes ≡ size
  pub bytes : All IsByte t.bytes
  pub incoming : All IsByte t.stream.incoming

-- There is room for a `Data` command of 65535 points.
abbrev pub IsRoomy : ℕ → Type 0
IsRoomy size = 1 + 2 + 65535 * dac_point_size_bytes ≤ size

-- Bytes written over the front of the buffer.
pub overwrite-HasBuffer :
    {size : ℕ} (xs : Bytes) (t : Tcp)
    → HasBuffer size t
    → All IsByte xs
    → length xs ≤ size
    → HasBuffer size (record t { bytes = overwrite xs t.bytes })
overwrite-HasBuffer {size} xs t h bytes fits = record {
  sized = omega (
    arith,
    h.sized,
    fits,
    length-append xs (drop (length xs) t.bytes),
    length-drop (length xs) t.bytes,
  );
  bytes = All-append IsByte xs _ bytes (All-drop IsByte (length xs) t.bytes h.bytes);
  incoming = h.incoming;
}

peek_with-HasBuffer :
    {size : ℕ} (o : PeekOutcome) (n : ℕ) (t : Tcp)
    → n ≤ size
    → HasBuffer size t
    → HasBuffer size (peek_with o n t).1
unfolding peek_with
peek_with-HasBuffer (arrived m) n t fits h =
    overwrite-HasBuffer (take (min n m) t.stream.incoming) t h
      (All-take IsByte (min n m) t.stream.incoming h.incoming)
      (omega (arith, fits, length-take (min n m) t.stream.incoming))
peek_with-HasBuffer (refuses e) n t fits h = h

pub peek-HasBuffer :
    {size : ℕ} (n : ℕ) (t : Tcp) → n ≤ size → HasBuffer size t → HasBuffer size (peek n t).1
unfolding peek next_peek
peek-HasBuffer {size} n t fits h = next t.peeks
  where
    next : (os : List PeekOutcome) → HasBuffer size (next_peek os n t).1
    next [] = peek_with-HasBuffer (arrived n) n t fits h
    next (o ∷ os) =
        peek_with-HasBuffer o n (record t { peeks = os }) fits
          (record { sized = h.sized; bytes = h.bytes; incoming = h.incoming })
