-- ===== src/Protocol/ReadBack.antt =====
-- What a writer puts into an empty vector, the reader gives back: the round trips of the commands, as
-- ether-dream/tests/protocol.rs runs them at single values.
use ether_dream.Base.{ℕ, ◌≡◌, refl, [], ◌++◌, length}
use ether_dream.Io.{Io, ok}
use ether_dream.Io.Bytes.{Bytes}
use ether_dream.Io.Reader.{ReadBytesExt, ReadsLittleEndian}
use ether_dream.Io.Writer.{WriteBytesExt, WritesLittleEndian}
use ether_dream.Io.Slice.{slice_read, vec_write}
use ether_dream.Io.Codec.{Reads, Writes}
use ether_dream.Dac.Command.{Command, read_command, write_command}
use ether_dream.Dac.Command.RoundTrip.{IsCommand, command_bytes, Reads-command, Writes-command}

-- `m` writes `n` bytes from which `p` reads `a`, whatever comes behind them.
pub record ReadsBack {A : Type 0} (m : Io Bytes (Unit {0})) (p : Io Bytes A) (n : ℕ) (a : A)
    : Type 0 where
  pub out : Bytes
  pub size : length out ≡ n
  pub written : m [] ≡ ok (tt, out)
  pub read : (rest : Bytes) → p (out ++ rest) ≡ ok (a, rest)

reads_back :
    {A : Type 0} {m : Io Bytes (Unit {0})} {p : Io Bytes A} {bs : Bytes} {n : ℕ} {a : A}
    → Writes vec_write m bs
    → Reads p bs a
    → length bs ≡ n
    → ReadsBack m p n a
reads_back {bs} hw hr size = record { out = bs; size = size; written = hw.at []; read = hr.at }

module _ ⦃r : ReadBytesExt Bytes⦄ ⦃w : WriteBytesExt Bytes⦄ (reads : ReadsLittleEndian slice_read r)
    (writes : WritesLittleEndian vec_write w) where
  -- A command of run-time kind whose fields are in range is written without an error, and read
  -- back as the same command, whichever it is and whatever comes behind its bytes; the
  -- `byteorder` methods being little endian as documented.
  pub ReadsBack-command :
      (c : Command)
      → IsCommand c
      → ReadsBack (write_command c) read_command (length (command_bytes c)) c
  ReadsBack-command c h = reads_back (Writes-command writes c h) (Reads-command reads c h) refl
