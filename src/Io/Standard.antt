-- ===== src/Io/Standard.antt =====
-- The `byteorder` methods as the crate documents them, at any stream: these meet the laws that the
-- theorems take as hypotheses.
use ether_dream.Base.{refl}
use ether_dream.Base.Int.{i16_of_u16, u16_of_i16}
use ether_dream.Io.{pure, ◌>>=◌}
use ether_dream.Io.Bytes.{Bytes, le_bytes, le_value}
use ether_dream.Io.Reader.{ReadBytesExt, ReadsLittleEndian}
use ether_dream.Io.Writer.{Write, WriteBytesExt, WritesLittleEndian}
use ether_dream.Io.Slice.{slice_read, slice_read_exact}

abbrev pub slice_reader : ReadBytesExt Bytes
slice_reader = record {
  u8 = slice_read_exact 1 >>= λ bs. pure (le_value bs);
  u16 = slice_read_exact 2 >>= λ bs. pure (le_value bs);
  u32 = slice_read_exact 4 >>= λ bs. pure (le_value bs);
  i16 = slice_read_exact 2 >>= λ bs. pure (i16_of_u16 (le_value bs));
}

pub slice_reader_laws : ReadsLittleEndian slice_read slice_reader
slice_reader_laws = record {
  u8_law = λ s. refl;
  u16_law = λ s. refl;
  u32_law = λ s. refl;
  i16_law = λ s. refl;
}

module _ {W : Type 0} (sink : Write W) where
  abbrev pub writer_to : WriteBytesExt W
  writer_to = record {
    u8 = λ n. sink.write_all (le_bytes 1 n);
    u16 = λ n. sink.write_all (le_bytes 2 n);
    u32 = λ n. sink.write_all (le_bytes 4 n);
    i16 = λ x. sink.write_all (le_bytes 2 (u16_of_i16 x));
  }

  pub writer_to_laws : WritesLittleEndian sink writer_to
  writer_to_laws = record {
    u8_law = λ n s. refl;
    u16_law = λ n s. refl;
    u32_law = λ n s. refl;
    i16_law = λ x s. refl;
  }
