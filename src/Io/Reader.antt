-- ===== src/Io/Reader.antt =====
-- Readers: `std::io::Read`, and `byteorder::ReadBytesExt` as a parameter of the model.
use ether_dream.Base.{ℕ, ◌≡◌}
use ether_dream.Base.Int.{ℤ, i16_of_u16}
use ether_dream.Io.{Io, pure, ◌>>=◌}
use ether_dream.Io.Bytes.{Bytes, le_value}

-- `Read::read_exact` of the standard library.
pub record Read (R : Type 0) : Type 0 where
  pub read_exact : ℕ → Io R Bytes

-- The methods of `byteorder::ReadBytesExt` that the program calls, at little endian.
pub record ReadBytesExt (R : Type 0) : Type 0 where
  pub u8 : Io R ℕ
  pub u16 : Io R ℕ
  pub u32 : Io R ℕ
  pub i16 : Io R ℤ

module _ {R : Type 0} ⦃r : ReadBytesExt R⦄ where
  abbrev pub read_u8 : Io R ℕ
  read_u8 = r.u8

  abbrev pub read_u16 : Io R ℕ
  read_u16 = r.u16

  abbrev pub read_u32 : Io R ℕ
  read_u32 = r.u32

  abbrev pub read_i16 : Io R ℤ
  read_i16 = r.i16

-- The crate's documentation: each method reads its width by `read_exact` of the underlying reader,
-- fails as that does, and decodes the bytes in little-endian order.
pub record ReadsLittleEndian {R : Type 0} (source : Read R) (r : ReadBytesExt R) : Type 0 where
  pub u8_law : (s : R) → r.u8 s ≡ (source.read_exact 1 >>= λ bs. pure (le_value bs)) s
  pub u16_law : (s : R) → r.u16 s ≡ (source.read_exact 2 >>= λ bs. pure (le_value bs)) s
  pub u32_law : (s : R) → r.u32 s ≡ (source.read_exact 4 >>= λ bs. pure (le_value bs)) s
  pub i16_law :
      (s : R) → r.i16 s ≡ (source.read_exact 2 >>= λ bs. pure (i16_of_u16 (le_value bs))) s

-- Protocol types that may be read: the trait `ReadFromBytes`, at one reader.
pub record ReadFromBytes (R P : Type 0) : Type 0 where
  pub read_from_bytes : Io R P

-- `ReadBytes::read_bytes`, whose blanket implementation calls the type's own method.
abbrev pub read_bytes : {R P : Type 0} ⦃p : ReadFromBytes R P⦄ → Io R P
read_bytes ⦃p⦄ = p.read_from_bytes
