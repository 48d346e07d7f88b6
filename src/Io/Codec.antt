-- ===== src/Io/Codec.antt =====
-- What a reader accepts and what a writer puts out, with one rule for each way to build them.
use mathlib.Core.Path.{fun_ext}
use native.Mathlib.Decide.{dec_lt}
use ether_dream.Base.{
  ℕ, ◌+◌, ◌%◌, ◌≤◌, ◌<◌, ◌≡◌, refl, arith, sym, ap, subst, append-nil, List, [], ◌∷◌, ◌++◌, sum,
  append_assoc, length, take, drop, length-append, length-drop, drop-drop, take-length-append,
  drop-length-append, le→leb, lt→leb,
}
use ether_dream.Base.Int.{ℤ, IsI16, u16_of_i16, i16_of_u16, i16_of_u16-u16_of_i16, u16_of_i16-lt}
use ether_dream.Io.{Io, ok, err, unexpected_eof, pure, continue, ◌>>=◌, ◌>>◌}
use ether_dream.Io.Bytes.{
  Bytes, IsByte, IsU16, IsU32, le_bytes, le_value, length-le_bytes, le_value-le_bytes_one,
  le_value-le_bytes_two, le_value-le_bytes_four,
}
use ether_dream.Io.Reader.{ReadBytesExt, ReadsLittleEndian}
use ether_dream.Io.Writer.{Write, WriteBytesExt, WritesLittleEndian}
use ether_dream.Io.Slice.{slice_read, slice_read_exact}

-- `p` takes the bytes `bs` off the front of any input and returns `a`.
pub record Reads {A : Type 0} (p : Io Bytes A) (bs : Bytes) (a : A) : Type 0 where
  pub at : (rest : Bytes) → p (bs ++ rest) ≡ ok (a, rest)

-- `p` takes `n` bytes off any input that has them, and fails with `UnexpectedEof` on a shorter one.
pub record Takes {A : Type 0} (p : Io Bytes A) (n : ℕ) : Type 0 where
  pub short : (s : Bytes) → length s < n → p s ≡ err unexpected_eof
  pub enough : (s : Bytes) → n ≤ length s → (a : A) × (p s ≡ ok (a, drop n s))

-- `m` hands `bs` to the sink, and fails exactly as the sink does.
pub record Writes {W : Type 0} (sink : Write W) (m : Io W (Unit {0})) (bs : Bytes) : Type 0 where
  pub at : (s : W) → m s ≡ sink.write_all bs s

module _ {A : Type 0} where
  pub Reads-pure : (a : A) → Reads (pure a) [] a
  unfolding pure
  Reads-pure a = record { at = λ rest. refl }

  pub Takes-pure : (a : A) → Takes (pure a) 0
  unfolding pure
  Takes-pure a = record { short = λ s h. absurd (omega arith); enough = λ s h. (a, refl) }

module _ {A B : Type 0} (p : Io Bytes A) (f : A → Io Bytes B) where
  pub Reads-bind :
      {bs cs : Bytes} {a : A} {b : B}
      → Reads p bs a
      → Reads (f a) cs b
      → Reads (p >>= f) (bs ++ cs) b
  unfolding ◌>>=◌
  Reads-bind {bs} {cs} hp hf = record {
    at = λ rest. rw (append_assoc bs cs rest, hp.at (cs ++ rest), hf.at rest);
  }

  module _ {m n : ℕ} (hp : Takes p m) (hf : (a : A) → Takes (f a) n) where
    bind_short : (s : Bytes) → length s < m + n → (p >>= f) s ≡ err unexpected_eof
    unfolding ◌>>=◌
    bind_short s h = elim (dec_lt (length s) m) [
      | yes little ↦ rw (hp.short s little)
      | no more ↦
          let (a, e) = hp.enough s (omega arith) in
          rw e ((hf a).short (drop m s) (omega (arith, length-drop m s)))
    ]

    bind_enough : (s : Bytes) → m + n ≤ length s → (b : B) × ((p >>= f) s ≡ ok (b, drop (m + n) s))
    unfolding ◌>>=◌
    bind_enough s h =
        let (a, e) = hp.enough s (omega arith) in
        let (b, e') = (hf a).enough (drop m s) (omega (arith, length-drop m s)) in
        (b, rw (e, e', drop-drop m n s))

    Takes-bind : Takes (p >>= f) (m + n)
    Takes-bind = record { short = bind_short; enough = bind_enough }

module _ {W : Type 0} (sink : Write W) where
  pub Writes-pure : Writes sink (pure tt) []
  unfolding pure
  Writes-pure = record { at = λ s. sym (sink.write_nothing s) }

  pub Writes-then :
      (m k : Io W (Unit {0})) {bs cs : Bytes}
      → Writes sink m bs
      → Writes sink k cs
      → Writes sink (m >> k) (bs ++ cs)
  unfolding ◌>>◌
  Writes-then m k {bs} {cs} hm hk = record {
    at = λ s.
        rw (sink.write_in_order bs cs s, hm.at s)
          (ap (λ g. continue (sink.write_all bs s) (λ _. g)) (fun_ext hk.at));
  }

-- A reader whose value goes into a structure at the end.
pub Reads-map :
    {A B : Type 0} (p : Io Bytes A) (g : A → B) {bs : Bytes} {a : A}
    → Reads p bs a
    → Reads (p >>= λ x. pure (g x)) bs (g a)
Reads-map p g {bs} {a} h =
    subst (λ (cs : Bytes). Reads (p >>= λ x. pure (g x)) cs (g a)) (append-nil bs)
      (Reads-bind p (λ x. pure (g x)) h (Reads-pure (g a)))

-- What a reader of a fixed size reads has that size.
pub Reads-length :
    {A : Type 0} {p : Io Bytes A} {n : ℕ} {bs : Bytes} {a : A}
    → Reads p bs a
    → Takes p n
    → length bs ≡ n
Reads-length {p} {n} {bs} {a} hr ht = elim (dec_lt (length bs) n) [
  | yes little ↦ cc (rw append-nil at (hr.at []), ht.short bs little)
  | no enough ↦
      let (b, e) = ht.enough bs (omega arith) in
      let whole : p bs ≡ ok (a, []) = rw append-nil at (hr.at []) in
      let none_left : ◌≡◌ {A = Bytes} [] (drop n bs) = cc (whole, e) in
      omega (arith, ap length none_left, length-drop n bs)
]

-- The primitive readers on a slice.
module _ {r : ReadBytesExt Bytes} (le : ReadsLittleEndian slice_read r) where
  Reads-exact :
      {A : Type 0} (k : ℕ) (bs : Bytes) (g : Bytes → A) (p : Io Bytes A)
      → ((s : Bytes) → p s ≡ (slice_read_exact k >>= λ bs. pure (g bs)) s)
      → length bs ≡ k
      → Reads p bs (g bs)
  unfolding ◌>>=◌ slice_read_exact
  Reads-exact k bs g p law e = record {
    at = λ rest. rw (
      law,
      ← e,
      le→leb (length bs) (length (bs ++ rest)) (omega (arith, length-append bs rest)),
      take-length-append,
      drop-length-append,
    );
  }

  Takes-exact :
      {A : Type 0} (k : ℕ) (g : Bytes → A) (p : Io Bytes A)
      → ((s : Bytes) → p s ≡ (slice_read_exact k >>= λ bs. pure (g bs)) s)
      → Takes p k
  unfolding ◌>>=◌ slice_read_exact
  Takes-exact k g p law = record {
    short = λ s h. rw (law, lt→leb k (length s) h);
    enough = λ s h. (g (take k s), rw (law, le→leb k (length s) h));
  }

  pub Reads-u8 : (n : ℕ) → IsByte n → Reads r.u8 (le_bytes 1 n) n
  Reads-u8 n h =
      rw (le_value-le_bytes_one n h) at
        (Reads-exact 1 (le_bytes 1 n) le_value r.u8 le.u8_law (length-le_bytes 1 n))

  -- One byte, as it stands at the front of the input.
  pub read_u8-cons : (b : ℕ) (rest : Bytes) → IsByte b → r.u8 (b ∷ rest) ≡ ok (b, rest)
  unfolding le_bytes
  read_u8-cons b rest h = let low : b % 256 ≡ b = omega arith in rw low at ((Reads-u8 b h).at rest)

  pub Reads-u16 : (n : ℕ) → IsU16 n → Reads r.u16 (le_bytes 2 n) n
  Reads-u16 n h =
      rw (le_value-le_bytes_two n h) at
        (Reads-exact 2 (le_bytes 2 n) le_value r.u16 le.u16_law (length-le_bytes 2 n))

  pub Reads-u32 : (n : ℕ) → IsU32 n → Reads r.u32 (le_bytes 4 n) n
  Reads-u32 n h =
      rw (le_value-le_bytes_four n h) at
        (Reads-exact 4 (le_bytes 4 n) le_value r.u32 le.u32_law (length-le_bytes 4 n))

  pub Reads-i16 : (x : ℤ) → IsI16 x → Reads r.i16 (le_bytes 2 (u16_of_i16 x)) x
  Reads-i16 x h =
      rw (le_value-le_bytes_two (u16_of_i16 x) (u16_of_i16-lt x h), i16_of_u16-u16_of_i16 x h) at
        (Reads-exact 2 (le_bytes 2 (u16_of_i16 x)) (λ bs. i16_of_u16 (le_value bs)) r.i16 le.i16_law
          (length-le_bytes 2 (u16_of_i16 x)))

  pub Takes-u8 : Takes r.u8 1
  Takes-u8 = Takes-exact 1 le_value r.u8 le.u8_law

  pub Takes-u16 : Takes r.u16 2
  Takes-u16 = Takes-exact 2 le_value r.u16 le.u16_law

  pub Takes-u32 : Takes r.u32 4
  Takes-u32 = Takes-exact 4 le_value r.u32 le.u32_law

  pub Takes-i16 : Takes r.i16 2
  Takes-i16 = Takes-exact 2 (λ bs. i16_of_u16 (le_value bs)) r.i16 le.i16_law

-- A primitive reader before the rest of a reader. The value that is read shows in the goal, so
-- `search` goes through a whole `do` block.
module _ {r : ReadBytesExt Bytes} (le : ReadsLittleEndian slice_read r) {B : Type 0} {cs : Bytes}
    {b : B} where
  pub Reads-u8_then :
      (f : ℕ → Io Bytes B) {n : ℕ}
      → IsByte n
      → Reads (f n) cs b
      → Reads (r.u8 >>= f) (le_bytes 1 n ++ cs) b
  Reads-u8_then f {n} h = Reads-bind _ f (Reads-u8 le n h)

  pub Reads-u16_then :
      (f : ℕ → Io Bytes B) {n : ℕ}
      → IsU16 n
      → Reads (f n) cs b
      → Reads (r.u16 >>= f) (le_bytes 2 n ++ cs) b
  Reads-u16_then f {n} h = Reads-bind _ f (Reads-u16 le n h)

  pub Reads-u32_then :
      (f : ℕ → Io Bytes B) {n : ℕ}
      → IsU32 n
      → Reads (f n) cs b
      → Reads (r.u32 >>= f) (le_bytes 4 n ++ cs) b
  Reads-u32_then f {n} h = Reads-bind _ f (Reads-u32 le n h)

  pub Reads-i16_then :
      (f : ℤ → Io Bytes B) {x : ℤ}
      → IsI16 x
      → Reads (f x) cs b
      → Reads (r.i16 >>= f) (le_bytes 2 (u16_of_i16 x) ++ cs) b
  Reads-i16_then f {x} h = Reads-bind _ f (Reads-i16 le x h)

-- A reader that takes pieces of these widths, one after the other.
pub record Widths {A : Type 0} (p : Io Bytes A) (ws : List ℕ) : Type 0 where
  pub takes : Takes p (sum ws)

pub Widths-pure : {A : Type 0} (a : A) → Widths (pure a) []
Widths-pure a = record { takes = Takes-pure a }

module _ {A B : Type 0} where
  pub Widths-bind :
      (p : Io Bytes A) (f : A → Io Bytes B) {m : ℕ} {ws : List ℕ}
      → Takes p m
      → ((a : A) → Widths (f a) ws)
      → Widths (p >>= f) (m ∷ ws)
  Widths-bind p f hp hf = record { takes = Takes-bind p f hp (λ a. (hf a).takes) }

-- The primitive writers.
module _ {W : Type 0} {sink : Write W} {w : WriteBytesExt W} (le : WritesLittleEndian sink w) where
  pub Writes-u8 : (n : ℕ) → Writes sink (w.u8 n) (le_bytes 1 n)
  Writes-u8 n = record { at = le.u8_law n }

  pub Writes-u16 : (n : ℕ) → Writes sink (w.u16 n) (le_bytes 2 n)
  Writes-u16 n = record { at = le.u16_law n }

  pub Writes-u32 : (n : ℕ) → Writes sink (w.u32 n) (le_bytes 4 n)
  Writes-u32 n = record { at = le.u32_law n }

  pub Writes-i16 : (x : ℤ) → Writes sink (w.i16 x) (le_bytes 2 (u16_of_i16 x))
  Writes-i16 x = record { at = le.i16_law x }

pub ruleset reads_rules =
    (Reads-pure, Reads-u8_then, Reads-u16_then, Reads-u32_then, Reads-i16_then)

pub ruleset takes_rules = (Widths-pure, Widths-bind, Takes-u8, Takes-u16, Takes-u32, Takes-i16)

pub ruleset writes_rules = (Writes-pure, Writes-then, Writes-u8, Writes-u16, Writes-u32, Writes-i16)
