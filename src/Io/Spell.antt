-- ===== src/Io/Spell.antt =====
-- What a reader has accepted, with one rule for each way to build one: the way back from a value
-- to the bytes that it was read from.
use ether_dream.Base.{
  ℕ, ◌≤◌, ◌<◌, ◌≡◌, ◌∙◌, ◌^◌, ap, refl, sym, subst, arith, [], ◌++◌, append_assoc, All, length,
  take, drop, take-append-drop, length-take, All-take, All-drop, leb, leb→le, Bool-cases, inl, inr,
}
use ether_dream.Base.Int.{ℤ, IsI16, i16_of_u16, u16_of_i16, i16_of_u16-IsI16, u16_of_i16-i16_of_u16}
use ether_dream.Io.{
  Io, IoError, IoResult, unexpected_eof, ok, err, pure, raise, continue-eq-ok, ◌>>=◌,
}
use ether_dream.Io.Bytes.{
  Bytes, IsByte, IsU16, IsU32, le_bytes, le_value, le_bytes-le_value, le_value-lt,
}
use ether_dream.Io.Reader.{ReadBytesExt, ReadsLittleEndian}
use ether_dream.Io.Slice.{slice_read, slice_read_exact}

-- Whenever `p` succeeds on bytes, it has taken some off the front, and these and the value that it
-- returns are related by `Q`.
pub record Spells {A : Type 0} (p : Io Bytes A) (Q : Bytes → A → Type 0) : Type 0 where
  pub at :
      (s : Bytes) {a : A} {rest : Bytes}
      → All IsByte s
      → p s ≡ ok (a, rest)
      → (bs : Bytes) × (s ≡ bs ++ rest) × Q bs a × All IsByte rest

module _ {A : Type 0} {Q : Bytes → A → Type 0} where
  pub Spells-pure : (a : A) → Q [] a → Spells (pure a) Q
  unfolding pure
  Spells-pure a q = record {
    at = λ s {a = b} {rest} bytes e.
        let same : a ≡ b = cc in
        let all : s ≡ rest = cc in ([], all, subst (Q []) same q, subst (All IsByte) all bytes);
  }

  pub Spells-raise : (e : IoError) → Spells (raise e) Q
  unfolding raise
  Spells-raise e = record { at = λ s bytes h. absurd cc }

  pub Spells-weaken :
      {P : Bytes → A → Type 0} (p : Io Bytes A)
      → Spells p P
      → ((bs : Bytes) (a : A) → P bs a → Q bs a)
      → Spells p Q
  Spells-weaken p h f = record {
    at = λ s bytes e. let (bs, same, q, others) = h.at s bytes e in (bs, same, f bs _ q, others);
  }

module _ {A B : Type 0} {P : Bytes → A → Type 0} {Q : Bytes → B → Type 0} where
  pub Spells-bind :
      (p : Io Bytes A) (f : A → Io Bytes B)
      → Spells p P
      → ((bs : Bytes) (a : A) → P bs a → Spells (f a) (λ cs b. Q (bs ++ cs) b))
      → Spells (p >>= f) Q
  unfolding ◌>>=◌
  Spells-bind p f hp hf = record {
    at = λ s bytes e.
        let (a, s', read, goes_on) = continue-eq-ok (p s) f e in
        let (bs, same, q, others) = hp.at s bytes read in
        let (cs, same', q', others') = (hf bs a q).at s' others goes_on in
        (bs ++ cs, same ∙ ap (λ t. bs ++ t) same' ∙ sym (append_assoc bs cs _), q', others');
  }

-- The primitive readers on a slice.
module _ {r : ReadBytesExt Bytes} (le : ReadsLittleEndian slice_read r) where
  Spells-exact :
      {A : Type 0} (k : ℕ) (g : Bytes → A) (p : Io Bytes A) {Q : Bytes → A → Type 0}
      → ((s : Bytes) → p s ≡ (slice_read_exact k >>= λ bs. pure (g bs)) s)
      → ((bs : Bytes) → length bs ≡ k → All IsByte bs → Q bs (g bs))
      → Spells p Q
  unfolding ◌>>=◌ slice_read_exact
  Spells-exact {A} k g p {Q} law q = record { at = taken }
    where
      taken :
          (s : Bytes) {a : A} {rest : Bytes}
          → All IsByte s
          → p s ≡ ok (a, rest)
          → (bs : Bytes) × (s ≡ bs ++ rest) × Q bs a × All IsByte rest
      taken s {a} {rest} bytes e = elim (Bool-cases (leb k (length s))) [
        | inl fits ↦
            let there : k ≤ length s = leb→le k (length s) fits in
            let reads : p s ≡ ok (g (take k s), drop k s) = rw (law, fits) refl in
            let both : ◌≡◌ {A = IoResult (A × Bytes)} (ok (g (take k s), drop k s)) (ok (a, rest)) =
              sym reads ∙ e in
            let same : g (take k s) ≡ a = cc in
            let behind : drop k s ≡ rest = cc in
            let sized : length (take k s) ≡ k = omega (arith, length-take k s) in
            (
              take k s,
              sym (take-append-drop k s) ∙ ap (λ t. take k s ++ t) behind,
              subst (Q (take k s)) same (q (take k s) sized (All-take IsByte k s bytes)),
              subst (All IsByte) behind (All-drop IsByte k s bytes),
            )
        | inr short ↦ let fails : p s ≡ err unexpected_eof = rw (law, short) refl in absurd cc
      ]

  -- The bytes of a number are those that it is written as.
  pub Spells-number :
      (k : ℕ) (p : Io Bytes ℕ)
      → ((s : Bytes) → p s ≡ (slice_read_exact k >>= λ bs. pure (le_value bs)) s)
      → Spells p (λ bs n. (n < 256 ^ k) × (bs ≡ le_bytes k n))
  Spells-number k p law = Spells-exact k le_value p law λ bs sized bytes.
      (rw sized at (le_value-lt bs bytes), rw sized at (sym (le_bytes-le_value bs bytes)))

  Spells-i16 : Spells r.i16 (λ bs x. IsI16 x × (bs ≡ le_bytes 2 (u16_of_i16 x)))
  Spells-i16 =
      Spells-exact 2 (λ bs. i16_of_u16 (le_value bs)) r.i16 le.i16_law
        λ bs sized bytes.
          let low : le_value bs < 2 ^ 16 = rw sized at (le_value-lt bs bytes) in
          (
            i16_of_u16-IsI16 (le_value bs) low,
            rw (u16_of_i16-i16_of_u16 (le_value bs) low)
                (rw sized at (sym (le_bytes-le_value bs bytes))),
          )

  module _ {B : Type 0} {Q : Bytes → B → Type 0} where
    pub written_then :
        {A : Type 0} {In : A → Type 0} {enc : A → Bytes} (p : Io Bytes A) (f : A → Io Bytes B)
        → Spells p (λ bs a. In a × (bs ≡ enc a))
        → ((a : A) → In a → Spells (f a) (λ cs b. Q (enc a ++ cs) b))
        → Spells (p >>= f) Q
    written_then p f hp h = Spells-bind p f hp λ bs a (inside, same).
        subst (λ (xs : Bytes). Spells (f a) (λ cs b. Q (xs ++ cs) b)) (sym same) (h a inside)

    pub Spells-u8_then :
        (f : ℕ → Io Bytes B)
        → ((n : ℕ) → IsByte n → Spells (f n) (λ cs b. Q (le_bytes 1 n ++ cs) b))
        → Spells (r.u8 >>= f) Q
    Spells-u8_then f h = written_then r.u8 f (Spells-number 1 r.u8 le.u8_law) h

    pub Spells-u16_then :
        (f : ℕ → Io Bytes B)
        → ((n : ℕ) → IsU16 n → Spells (f n) (λ cs b. Q (le_bytes 2 n ++ cs) b))
        → Spells (r.u16 >>= f) Q
    Spells-u16_then f h = written_then r.u16 f (Spells-number 2 r.u16 le.u16_law) h

    pub Spells-u32_then :
        (f : ℕ → Io Bytes B)
        → ((n : ℕ) → IsU32 n → Spells (f n) (λ cs b. Q (le_bytes 4 n ++ cs) b))
        → Spells (r.u32 >>= f) Q
    Spells-u32_then f h = written_then r.u32 f (Spells-number 4 r.u32 le.u32_law) h

    pub Spells-i16_then :
        (f : ℤ → Io Bytes B)
        → ((x : ℤ) → IsI16 x → Spells (f x) (λ cs b. Q (le_bytes 2 (u16_of_i16 x) ++ cs) b))
        → Spells (r.i16 >>= f) Q
    Spells-i16_then f h = written_then r.i16 f Spells-i16 h

pub ruleset spells_rules =
    (Spells-pure, Spells-u8_then, Spells-u16_then, Spells-u32_then, Spells-i16_then)
