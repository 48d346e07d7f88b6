-- ===== src/Io/Bytes.antt =====
-- Little-endian bytes.
use native.Mathlib.Nat.{pow-suc}
use ether_dream.Base.{
  ℕ, zero, suc, ◌+◌, ◌*◌, ◌/◌, ◌%◌, ◌^◌, ◌<◌, ◌≡◌, refl, arith, List, [], ◌∷◌, length, All,
}

abbrev pub IsByte : ℕ → Type 0
IsByte b = b < 256

abbrev pub IsU16 : ℕ → Type 0
IsU16 n = n < 2 ^ 16

abbrev pub IsU32 : ℕ → Type 0
IsU32 n = n < 2 ^ 32

abbrev pub Bytes : Type 0
Bytes = List ℕ

-- The lowest `k` bytes of `n`, the lowest first.
unfoldable pub le_bytes : ℕ → ℕ → Bytes
le_bytes zero n = []
le_bytes (suc k) n = n % 256 ∷ le_bytes k (n / 256)

-- The number that the bytes spell.
unfoldable pub le_value : Bytes → ℕ
le_value [] = 0
le_value (b ∷ bs) = b + 256 * le_value bs

pub length-le_bytes : (k n : ℕ) → length (le_bytes k n) ≡ k
unfolding le_bytes
length-le_bytes zero n = refl
length-le_bytes (suc k) n = omega (arith, length-le_bytes k (n / 256))

pub le_bytes-IsByte : (k n : ℕ) → All IsByte (le_bytes k n)
unfolding le_bytes
le_bytes-IsByte zero n = tt
le_bytes-IsByte (suc k) n = (omega arith, le_bytes-IsByte k (n / 256))

-- Writing and reading back, for each width that the protocol has.
pub le_value-le_bytes_one : (n : ℕ) → IsByte n → le_value (le_bytes 1 n) ≡ n
unfolding le_bytes le_value
le_value-le_bytes_one n h = omega arith

pub le_value-le_bytes_two : (n : ℕ) → IsU16 n → le_value (le_bytes 2 n) ≡ n
unfolding le_bytes le_value
le_value-le_bytes_two n h = omega arith

pub le_value-le_bytes_four : (n : ℕ) → IsU32 n → le_value (le_bytes 4 n) ≡ n
unfolding le_bytes le_value
le_value-le_bytes_four n h = omega arith

-- Reading and writing back, at any width.
pub le_bytes-le_value : (bs : Bytes) → All IsByte bs → le_bytes (length bs) (le_value bs) ≡ bs
unfolding le_bytes le_value
le_bytes-le_value [] h = refl
le_bytes-le_value (b ∷ bs) (hb, hbs) =
    let low : (b + 256 * le_value bs) % 256 ≡ b = omega arith in
    let high : (b + 256 * le_value bs) / 256 ≡ le_value bs = omega arith in
    rw (low, high, le_bytes-le_value bs hbs)

-- `k` bytes spell a number of `8 * k` bits.
pub le_value-lt : (bs : Bytes) → All IsByte bs → le_value bs < 256 ^ length bs
unfolding le_value
le_value-lt [] h = omega arith
le_value-lt (b ∷ bs) (hb, hbs) = omega (arith, pow-suc 256 (length bs), le_value-lt bs hbs)
