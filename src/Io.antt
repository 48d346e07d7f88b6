-- ===== src/Io.antt =====
-- What the program takes from the standard library's `std::io` and from the `byteorder` crate.
-- Readers and writers are state passing: an action takes the stream and gives it back, or fails.
-- The stream that an error leaves behind is not part of the result: the program reads from and
-- writes to borrowed slices and a vector that it clears, and drops them on the error path.
pub mod Bytes
pub mod Reader
pub mod Writer
pub mod Slice
pub mod Codec
pub mod Spell
pub mod Fill
pub mod Standard
pub use ether_dream.Base.{ok, err}
use ether_dream.Base.{◌≡◌, refl, Result}

-- `io::ErrorKind`, as far as the program makes or meets it. The texts of the messages are left out.
pub data IoError : Type 0 where
  unexpected_eof write_zero invalid_data timed_out would_block other : IoError

-- `io::Result`.
abbrev pub IoResult {ℓ} : Type ℓ → Type ℓ
IoResult = Result IoError

-- An action on a stream of type `S`.
abbrev pub Io {ℓ} : Type ℓ → Type ℓ → Type ℓ
Io S A = S → IoResult (A × S)

module _ {ℓ} {S A : Type ℓ} where
  unfoldable pub pure : A → Io S A
  pure a s = ok (a, s)

  unfoldable pub raise : IoError → Io S A
  raise e s = err e

module _ {ℓ} {S A B : Type ℓ} where
  abbrev pub continue : IoResult (A × S) → (A → Io S B) → IoResult (B × S)
  continue (ok (a, s)) f = f a s
  continue (err e) f = err e

  -- The `?` operator. Opening it opens `pure` and `raise` too.
  infixl 5 ◌>>=◌ ◌>>◌
  unfoldable pub ◌>>=◌ : Io S A → (A → Io S B) → Io S B
  unfolding pure raise
  ◌>>=◌ m f s = continue (m s) f

  unfoldable pub ◌>>◌ : Io S A → Io S B → Io S B
  unfolding pure raise
  ◌>>◌ m k s = continue (m s) (λ _. k)

-- Inversion of a successful run.
pub continue-eq-ok {ℓ} :
    {S A B : Type ℓ} (r : IoResult (A × S)) (f : A → Io S B) {p : B × S}
    → continue r f ≡ ok p
    → (a : A) × (s : S) × (r ≡ ok (a, s)) × (f a s ≡ ok p)
continue-eq-ok (ok (a, s)) f h = (a, s, refl, h)
continue-eq-ok (err e) f h = cc
