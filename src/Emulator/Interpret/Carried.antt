-- ===== src/Emulator/Interpret/Carried.antt =====
-- What dac-emulator/src/stream.rs reads, and the ranges of its fields.
use ether_dream.Base.{ℕ, ◌≡◌, refl, Bool, Bool-cases, inl, inr, Result, ok, err}
use ether_dream.Io.{Io, IoError, invalid_data}
use ether_dream.Io.Bytes.{Bytes, IsByte}
use ether_dream.Io.Reader.{ReadBytesExt, ReadsLittleEndian}
use ether_dream.Io.Slice.{slice_read}
use ether_dream.Io.Spell.{Spells, Spells-pure, Spells-raise, Spells-weaken, Spells-u8_then}
use ether_dream.Protocol.Command.{PrepareStream, Stop, EmergencyStop, ClearEmergencyStop, Ping}
use ether_dream.Protocol.Command.Decode.{
  expect_start, read_prepare_stream, read_begin, read_point_rate, read_data, read_stop,
  read_emergency_stop, read_clear_emergency_stop, read_ping,
}
use ether_dream.Dac.Command
use ether_dream.Dac.Command.RoundTrip.{IsCommand}
use ether_dream.Dac.Command.Spelling.{
  Spells-read_begin_fields, Spells-read_point_rate_fields, Spells-read_data_fields,
}
use ether_dream.Emulator.{
  prepare_stream, begin, point_rate, data_points, stop, emergency_stop, clear_emergency_stop, ping,
  InterpretedCommand, known, unknown,
}
use ether_dream.Emulator.Wire.{emulated}

-- A command whose fields are in range, as the client has them too, or an unknown byte.
abbrev pub IsCarried : InterpretedCommand → Type 0
IsCarried (known c) = (d : ether_dream.Dac.Command.Command) × (emulated d ≡ c) × IsCommand d
IsCarried (unknown b) = IsByte b

abbrev pub Carries : Result IoError InterpretedCommand → Type 0
Carries (ok c) = IsCarried c
Carries (err _) = Unit {0}

module _ ⦃r : ReadBytesExt Bytes⦄ (le : ReadsLittleEndian slice_read r) where
  -- Behind a starting byte.
  expect_start-Spells :
      {A : Type 0} {In : A → Type 0} (test : ℕ → Bool) (k : Io Bytes A)
      → Spells k (λ bs a. In a)
      → Spells (expect_start test k) (λ bs a. In a)
  unfolding expect_start
  expect_start-Spells {A} {In} test k h = Spells-u8_then le _ λ n byte. elim (Bool-cases (test n)) [
    | inl passes ↦ rw passes h
    | inr fails ↦ rw fails (Spells-raise invalid_data)
  ]

  pub Spells-read_prepare_stream :
      Spells read_prepare_stream (λ bs c. IsCarried (known (prepare_stream c)))
  unfolding read_prepare_stream
  Spells-read_prepare_stream = expect_start-Spells _ _ (
      Spells-pure _ (ether_dream.Dac.Command.prepare_stream PrepareStream.prepare_stream, refl, tt))

  pub Spells-read_begin : Spells read_begin (λ bs c. IsCarried (known (begin c)))
  unfolding read_begin
  Spells-read_begin = expect_start-Spells _ _ (
      Spells-weaken _ (Spells-read_begin_fields le)
        λ bs c (inside, same). (ether_dream.Dac.Command.begin c, refl, inside))

  pub Spells-read_point_rate : Spells read_point_rate (λ bs c. IsCarried (known (point_rate c)))
  unfolding read_point_rate
  Spells-read_point_rate = expect_start-Spells _ _ (
      Spells-weaken _ (Spells-read_point_rate_fields le)
        λ bs c (inside, same). (ether_dream.Dac.Command.point_rate c, refl, inside))

  pub Spells-read_data : Spells read_data (λ bs c. IsCarried (known (data_points c)))
  unfolding read_data
  Spells-read_data = expect_start-Spells _ _ (
      Spells-weaken _ (Spells-read_data_fields le)
        λ bs c (inside, same). (ether_dream.Dac.Command.data_points c, refl, inside))

  pub Spells-read_stop : Spells read_stop (λ bs c. IsCarried (known (stop c)))
  unfolding read_stop
  Spells-read_stop =
      expect_start-Spells _ _ (Spells-pure _ (ether_dream.Dac.Command.stop Stop.stop, refl, tt))

  pub Spells-read_emergency_stop :
      Spells read_emergency_stop (λ bs c. IsCarried (known (emergency_stop c)))
  unfolding read_emergency_stop
  Spells-read_emergency_stop = expect_start-Spells _ _ (
      Spells-pure _ (ether_dream.Dac.Command.emergency_stop EmergencyStop.emergency_stop, refl, tt))

  pub Spells-read_clear_emergency_stop :
      Spells read_clear_emergency_stop (λ bs c. IsCarried (known (clear_emergency_stop c)))
  unfolding read_clear_emergency_stop
  Spells-read_clear_emergency_stop = expect_start-Spells _ _ (
      Spells-pure _ (
        ether_dream.Dac.Command.clear_emergency_stop ClearEmergencyStop.clear_emergency_stop,
        refl,
        tt,
      ))

  pub Spells-read_ping : Spells read_ping (λ bs c. IsCarried (known (ping c)))
  unfolding read_ping
  Spells-read_ping =
      expect_start-Spells _ _ (Spells-pure _ (ether_dream.Dac.Command.ping Ping.ping, refl, tt))
