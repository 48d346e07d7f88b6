-- ===== src/Io/Writer.antt =====
-- Writers: `std::io::Write`, and `byteorder::WriteBytesExt` as a parameter of the model.
use ether_dream.Base.{ℕ, ◌≡◌, [], ◌++◌}
use ether_dream.Base.Int.{ℤ, u16_of_i16}
use ether_dream.Io.{Io, ok, ◌>>◌}
use ether_dream.Io.Bytes.{Bytes, le_bytes}

-- `Write::write_all` of the standard library, with the law that output comes in order.
pub record Write (W : Type 0) : Type 0 where
  pub write_all : Bytes → Io W (Unit {0})
  pub write_nothing : (w : W) → write_all [] w ≡ ok (tt, w)
  pub write_in_order :
      (xs ys : Bytes) (w : W) → write_all (xs ++ ys) w ≡ (write_all xs >> write_all ys) w

-- The methods of `byteorder::WriteBytesExt` that the program calls, at little endian.
pub record WriteBytesExt (W : Type 0) : Type 0 where
  pub u8 : ℕ → Io W (Unit {0})
  pub u16 : ℕ → Io W (Unit {0})
  pub u32 : ℕ → Io W (Unit {0})
  pub i16 : ℤ → Io W (Unit {0})

module _ {W : Type 0} ⦃w : WriteBytesExt W⦄ where
  abbrev pub write_u8 : ℕ → Io W (Unit {0})
  write_u8 = w.u8

  abbrev pub write_u16 : ℕ → Io W (Unit {0})
  write_u16 = w.u16

  abbrev pub write_u32 : ℕ → Io W (Unit {0})
  write_u32 = w.u32

  abbrev pub write_i16 : ℤ → Io W (Unit {0})
  write_i16 = w.i16

-- The crate's documentation: each method hands its little-endian bytes to `write_all` of the
-- underlying writer, and fails as that does.
pub record WritesLittleEndian {W : Type 0} (sink : Write W) (w : WriteBytesExt W) : Type 0 where
  pub u8_law : (n : ℕ) (s : W) → w.u8 n s ≡ sink.write_all (le_bytes 1 n) s
  pub u16_law : (n : ℕ) (s : W) → w.u16 n s ≡ sink.write_all (le_bytes 2 n) s
  pub u32_law : (n : ℕ) (s : W) → w.u32 n s ≡ sink.write_all (le_bytes 4 n) s
  pub i16_law : (x : ℤ) (s : W) → w.i16 x s ≡ sink.write_all (le_bytes 2 (u16_of_i16 x)) s

-- Protocol types that may be written: the trait `WriteToBytes`, at one writer.
pub record WriteToBytes (W P : Type 0) : Type 0 where
  pub write_to_bytes : P → Io W (Unit {0})

-- `WriteBytes::write_bytes`, whose blanket implementation calls the type's own method.
abbrev pub write_bytes : {W P : Type 0} ⦃p : WriteToBytes W P⦄ → P → Io W (Unit {0})
write_bytes ⦃p⦄ = p.write_to_bytes
