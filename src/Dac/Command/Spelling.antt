-- ===== src/Dac/Command/Spelling.antt =====
-- The commands' readers take exactly the layout of what they return, but for the other starting byte
-- of the emergency stop.
use ether_dream.Base.{
  ℕ, zero, suc, ◌≡◌, ◌≤◌, ◌∙◌, refl, sym, ap, arith, List, [], ◌∷◌, ◌++◌, length, All, append-nil,
  append_assoc, Bool-cases, ◌==◌, ==_iff, subst, ◌⊎◌, inl, inr, if◌then◌else◌,
}
use ether_dream.Io.{Io, ok, pure, ◌>>=◌, invalid_data}
use ether_dream.Io.Bytes.{Bytes, le_bytes, IsByte}
use ether_dream.Io.Reader.{ReadBytesExt, ReadsLittleEndian}
use ether_dream.Io.Writer.{WriteBytesExt, WritesLittleEndian}
use ether_dream.Io.Slice.{slice_read, vec_write}
use ether_dream.Io.Spell.{
  Spells, Spells-pure, Spells-raise, Spells-bind, Spells-weaken, written_then, Spells-u8_then,
  Spells-u16_then, spells_rules,
}
use ether_dream.Protocol.{DacPoint}
use ether_dream.Protocol.Layout.{IsPoint, point_bytes}
use ether_dream.Protocol.Decode.{read_dac_point}
use ether_dream.Protocol.Spelling.{IsSpelling, Spells-read_dac_point}
use ether_dream.Protocol.Command.{u16_max, EmergencyStop, emergency_stop_alt_start_byte}
use ether_dream.Protocol.Command.Layout.{
  lone_byte, begin_bytes, point_rate_bytes, points_bytes, data_bytes, IsBegin, IsPointRate, IsData,
}
use ether_dream.Protocol.Command.Decode.{
  read_begin_fields, read_point_rate_fields, read_n_points, read_points, read_data_fields,
}
use ether_dream.Dac.Command.{
  Command, begin, point_rate, data_points, emergency_stop, read_command_kind, read_command,
  write_command,
}
use ether_dream.Dac.Command.RoundTrip.{IsCommand, command_bytes, Writes-command}

-- The bytes of a command: its encoding, or the other starting byte of the emergency stop.
abbrev pub IsCommandSpelling : Bytes → Command → Type 0
IsCommandSpelling bs c =
    IsCommand c
    × ((bs ≡ command_bytes c)
        ⊎ ((bs ≡ lone_byte emergency_stop_alt_start_byte)
            × (c ≡ emergency_stop EmergencyStop.emergency_stop)))

-- The command that was read is written as the bytes that it was read from, which stand in front of
-- `rest`; or these are the other starting byte of the emergency stop.
pub record WritesBack ⦃w : WriteBytesExt Bytes⦄ (s rest : Bytes) (c : Command) : Type 0 where
  pub in_range : IsCommand c
  pub out : Bytes
  pub written : write_command c [] ≡ ok (tt, out)
  pub from :
      (s ≡ out ++ rest)
      ⊎ ((s ≡ emergency_stop_alt_start_byte ∷ rest)
          × (c ≡ emergency_stop EmergencyStop.emergency_stop))

-- What is left to read after the starting byte.
abbrev Rest : ℕ → Bytes → Command → Type 0
Rest n cs c = IsCommandSpelling (le_bytes 1 n ++ cs) c

-- A test of the starting byte.
start :
    {k l : Io Bytes Command} (n x : ℕ)
    → Spells k (Rest x)
    → Spells l (Rest n)
    → Spells (if n == x then k else l) (Rest n)
start {k} n x hk hl = elim (Bool-cases (n == x)) [
  | inl same ↦ rw same (subst (λ m. Spells k (Rest m)) (sym ((==_iff n x).0 same)) hk)
  | inr other ↦ rw other hl
]

-- A command that is its starting byte alone.
lone :
    (x : ℕ) (c : Command) → IsCommand c → command_bytes c ≡ lone_byte x → Spells (pure c) (Rest x)
lone x c inside e = Spells-pure c (inside, inl (sym e))

with_fields :
    {A : Type 0} {In : A → Type 0} {enc : A → Bytes} (x : ℕ) (p : Io Bytes A) (c : A → Command)
    → Spells p (IsSpelling enc In)
    → ((a : A) → In a → IsCommand (c a))
    → ((a : A) → command_bytes (c a) ≡ le_bytes 1 x ++ enc a)
    → Spells (p >>= λ a. pure (c a)) (Rest x)
with_fields {enc} x p c h inside encoded =
    Spells-bind p (λ a. pure (c a)) h
      λ bs a (fields, same). Spells-pure (c a) (
        inside a fields,
        inl (ap (λ (t : Bytes). le_bytes 1 x ++ t) (append-nil bs ∙ same) ∙ sym (encoded a)),
      )

module _ ⦃r : ReadBytesExt Bytes⦄ (le : ReadsLittleEndian slice_read r) where
  pub Spells-read_begin_fields :
      Spells read_begin_fields
        (IsSpelling (λ c. le_bytes 2 c.low_water_mark ++ (le_bytes 4 c.point_rate ++ [])) IsBegin)
  unfolding read_begin_fields
  Spells-read_begin_fields = search spells_rules depth 12

  pub Spells-read_point_rate_fields :
      Spells read_point_rate_fields (IsSpelling (λ c. le_bytes 4 c.rate ++ []) IsPointRate)
  unfolding read_point_rate_fields
  Spells-read_point_rate_fields = search spells_rules depth 12

  -- The points that a loop of `n` rounds appends to `acc`.
  abbrev Appended : ℕ → List DacPoint → Bytes → List DacPoint → Type 0
  Appended n acc bs ps =
      (new : List DacPoint) × (ps ≡ acc ++ new)
      × (length new ≡ n)
      × All IsPoint new
      × (bs ≡ points_bytes new)

  Spells-points : (n : ℕ) (acc : List DacPoint) → Spells (read_points n acc) (Appended n acc)
  unfolding read_points points_bytes
  Spells-points zero acc = Spells-pure acc ([], sym (append-nil acc), refl, tt, refl)
  Spells-points (suc n) acc = written_then le read_dac_point _ (Spells-read_dac_point le) λ p hp.
      Spells-weaken _ (Spells-points n (acc ++ p ∷ [])) λ bs ps (new, same, sized, inside, written).
        (
          p ∷ new,
          same ∙ append_assoc acc (p ∷ []) new,
          omega (arith, sized),
          (hp, inside),
          ap (λ t. point_bytes p ++ t) written,
        )

  pub Spells-read_data_fields :
      Spells read_data_fields
        (IsSpelling (λ c. le_bytes 2 (length c.points) ++ points_bytes c.points) IsData)
  unfolding read_data_fields read_n_points
  Spells-read_data_fields = Spells-u16_then le _ λ n h.
      Spells-bind (read_points n []) _ (Spells-points n [])
        λ bs ps (new, same, sized, inside, written).
          let count : length new ≤ u16_max = omega (arith, sized, h) in
          Spells-pure _ (
            rw (same, written, ← sized)
              (record { points = inside; count = count }, rw append-nil refl))

  Spells-kind : (n : ℕ) → Spells (read_command_kind n) (Rest n)
  unfolding read_command_kind command_bytes begin_bytes point_rate_bytes data_bytes
  Spells-kind n = start n _ (lone _ _ tt refl) (
      start n _ (with_fields _ _ begin Spells-read_begin_fields (λ a h. h) (λ a. refl)) (
        start n _ (with_fields _ _ point_rate Spells-read_point_rate_fields (λ a h. h) (λ a. refl))
          (start n _ (with_fields _ _ data_points Spells-read_data_fields (λ a h. h) (λ a. refl)) (
            start n _ (lone _ _ tt refl) (
              start n _ (lone _ _ tt refl) (
                start n _ (Spells-pure _ (tt, inr (refl, refl))) (
                  start n _ (lone _ _ tt refl)
                    (start n _ (lone _ _ tt refl) (Spells-raise invalid_data)))))))))

  pub Spells-command : Spells read_command IsCommandSpelling
  unfolding read_command
  Spells-command = Spells-u8_then le _ λ n h. Spells-kind n

  -- If bytes are read as a command of run-time kind, its fields are in range and it is written
  -- without an error; what is written is what was read, and stands in front of the bytes that are
  -- left. The one exception is the byte 0xff, which is read as an emergency stop too; the
  -- `byteorder` methods being little endian as documented.
  pub WritesBack-command :
      ⦃w : WriteBytesExt Bytes⦄ (writes : WritesLittleEndian vec_write w) (s rest : Bytes)
      (c : Command)
      → All IsByte s
      → read_command s ≡ ok (c, rest)
      → WritesBack s rest c
  unfolding le_bytes
  WritesBack-command writes s rest c bytes e =
      let (bs, split, (inside, spelled), others) = Spells-command.at s bytes e in
      record {
        in_range = inside;
        out = command_bytes c;
        written = (Writes-command writes c inside).at [];
        from = elim spelled [
          | inl own ↦ inl (split ∙ ap (λ xs. xs ++ rest) own)
          | inr (other, stops) ↦ inr (split ∙ ap (λ xs. xs ++ rest) other, stops)
        ];
      }
