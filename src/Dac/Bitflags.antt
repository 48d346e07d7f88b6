-- ===== src/Dac/Bitflags.antt =====
-- What the program takes from the `bitflags` crate. A set of flags is the number that its `bits`
-- field holds; the crate's `from_bits_truncate` is a parameter.
use ether_dream.Base.{ℕ, ◌-◌, ◌%◌, ◌^◌, ◌≡◌}

-- `from_bits_truncate`, at the union of the declared flags and the bits to convert.
pub record Bitflags : Type 0 where
  pub from_bits_truncate : ℕ → ℕ → ℕ

-- The crate's documentation: "convert from underlying bit representation, dropping any bits that do
-- not correspond to flags"; here for the case that the declared flags are the low `k` bits.
pub record DropsUnknownBits (b : Bitflags) : Type 0 where
  pub low_bits : (k n : ℕ) → b.from_bits_truncate (2 ^ k - 1) n ≡ n % 2 ^ k
