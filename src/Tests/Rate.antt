-- ===== src/Tests/Rate.antt =====
-- The point rate 0, with fractions in the place of `f64`.
use native.Mathlib.Nat.{div-le_self}
use ether_dream.Base.{
  ℕ, ◌-◌, ◌*◌, ◌/◌, ◌^◌, ◌≤◌, ◌≡◌, ◌↔◌, refl, arith, min, ◌==◌, if◌then◌else◌, Option, none, some,
  List, length, All, replicate, length-replicate, All-replicate, [], ◌∷◌, ap, ◌∙◌,
}
use ether_dream.Dac.{playing}
use ether_dream.Emulator.{Shared}
use ether_dream.Emulator.Emit.{emit, panicked, schedule, loop_at}
use ether_dream.Emulator.Rate.{F64, DividesAsIeee, rate_interval, emit-zero_rate}
use ether_dream.Io.Bytes.{Bytes, IsByte, le_bytes}
use ether_dream.Io.Standard.{slice_reader_laws, writer_to_laws}
use ether_dream.Io.Slice.{slice_write}
use ether_dream.Emulator.Interpret.{Tcp}
use ether_dream.Protocol.Layout.{IsStatus}
use ether_dream.Dac.Convert.{status_to_protocol}
use ether_dream.Emulator.Process.{status_of, process_interpreted_command}
use ether_dream.Emulator.Next.Bounds.{next_points-zero_rate}
use ether_dream.Emulator.Interpret.Buffer.{HasBuffer}
use ether_dream.Emulator.Next.{
  Round, command, emission, reading, panics, emission_round, next_points, Left,
}
use ether_dream.Emulator.Next.Serving.{after_commands, next_points-serve}
use ether_dream.Emulator.Exchange.{FitsIn, serve_lem}
use ether_dream.Emulator.Run.{process_all}
use ether_dream.Client.View.{commands_bytes}
use ether_dream.Dac.Command.{Command}
use ether_dream.Dac.Command.RoundTrip.{command_bytes}
use ether_dream.Protocol.Command.Layout.{point_rate_bytes}
use ether_dream.Tests.{reader, slice_writer, point, prepared_status, dac_at, connection, closed}

-- Numerator and denominator; `none` is infinite.
abbrev Fraction : Type 0
Fraction = Option (ℕ × ℕ)

abbrev less : Fraction → Fraction → Fraction
less (some (a, b)) (some (c, d)) = some (a * d - c * b, b * d)
less _ _ = none

abbrev product : Fraction → Fraction → Fraction
product (some (a, b)) (some (c, d)) = some (a * c, b * d)
product _ _ = none

abbrev quotient : Fraction → Fraction → Fraction
quotient (some (a, b)) (some (c, d)) = if c == 0 then none else some (a * d, b * c)
quotient _ _ = none

abbrev floor : ℕ → Fraction → ℕ
floor greatest none = greatest
floor greatest (some (a, b)) = min greatest (a / b)

abbrev fractions : F64
fractions = record {
  F = Fraction;
  of_u32 = λ n. some (n, 1);
  of_u64 = λ n. some (n, 1);
  one = some (1, 1);
  billion = some (10 ^ 9, 1);
  minus = less;
  times = product;
  over = quotient;
  to_u32 = floor (2 ^ 32 - 1);
  to_u64 = floor (2 ^ 64 - 1);
}

floor-le : (greatest : ℕ) (a : Fraction) → floor greatest a ≤ greatest
floor-le greatest none = omega arith
floor-le greatest (some (a, b)) = omega arith

fractions-DividesAsIeee : DividesAsIeee fractions
fractions-DividesAsIeee = record {
  infinity = none;
  by_zero = refl;
  at_most_one = λ hz positive range. ground (arith, div-le_self 1 (1 * hz));
  infinity_less = λ n. refl;
  infinity_times = refl;
  infinity_u32 = refl;
  infinity_u64 = refl;
  is_u32 = λ a. omega (arith, floor-le (2 ^ 32 - 1) a);
}

thousand : rate_interval fractions 1000 ≡ some 1000000
unfolding rate_interval
thousand = refl

-- It plays, at the rate 0.
abbrev stalled : Shared
stalled = record {
  dac = dac_at (record (prepared_status 1) { playback = playing; point_rate = 0 });
  state = record { next_point_emission = some 5; buffer = point ∷ [] };
}

emit-zero_rate_example :
    (emit (rate_interval fractions) 16 11 stalled ≡ panicked) ↔ (◌≡◌ {A = ℕ} 0 0)
emit-zero_rate_example =
    emit-zero_rate fractions fractions-DividesAsIeee 16 11 stalled (5, refl) (omega arith)

-- There are buffers of every size. This one is never computed.
buffer_of : (n : ℕ) → (bs : Bytes) × ((length bs ≡ n) × All IsByte bs)
buffer_of n = (replicate n 0, (length-replicate n 0, All-replicate IsByte n 0 (omega arith)))

-- A buffer for the largest command.
abbrev roomy : Bytes → Tcp
roomy incoming = record { stream = connection incoming; peeks = []; bytes = (buffer_of 1179633).0 }

-- A client sets the point rate 0.
abbrev set_zero : List Command
set_zero = Command.point_rate (record { rate = 0 }) ∷ []

roomy-HasBuffer : HasBuffer 1179633 (roomy (commands_bytes set_zero))
unfolding commands_bytes command_bytes point_rate_bytes le_bytes
roomy-HasBuffer = record {
  sized = (buffer_of 1179633).1.0;
  bytes = (buffer_of 1179633).1.1;
  incoming = ground arith;
}

-- It plays, at a rate that has an interval.
abbrev running : Shared
running = record {
  dac = dac_at (record (prepared_status 1) { playback = playing; point_rate = 1000 });
  state = record { next_point_emission = some 5; buffer = point ∷ [] };
}

running-IsStatus : IsStatus (status_to_protocol (status_of running))
unfolding status_to_protocol
running-IsStatus = ground arith

abbrev stalls : List Round
stalls = emission 5 16 (reading 0 []) ∷ []

stalls-panics :
    (t : Tcp)
    → (next_points
        (rate_interval fractions)
        11
        closed
        stalls
        (after_commands set_zero running).1
        t).outcome
      ≡ panics
unfolding next_points rate_interval emission_round schedule emit loop_at process_all
    process_interpreted_command
stalls-panics t = refl

set_zero-FitsIn : FitsIn 1179633 (Command.point_rate (record { rate = 0 }))
unfolding command_bytes point_rate_bytes le_bytes
set_zero-FitsIn = (omega arith, omega arith)

set_zero-panics :
    (next_points
      (rate_interval fractions)
      11
      closed
      (command none ∷ stalls)
      running
      (roomy (commands_bytes set_zero))).outcome
    ≡ panics
set_zero-panics =
    let (t, serves, l) =
      serve_lem (writer_to_laws slice_write) slice_reader_laws 1179633 set_zero running
        (roomy (commands_bytes set_zero)) (buffer_of 1179633).1.0 (omega arith)
        (set_zero-FitsIn, tt) refl refl refl in
    ap (λ (x : Left). x.outcome)
      (next_points-serve (rate_interval fractions) 11 closed 1 stalls running
        (roomy (commands_bytes set_zero)) (after_commands set_zero running).1 t serves)
    ∙ stalls-panics t

next_points-zero_rate_example :
    let left =
      next_points
        (rate_interval fractions)
        11
        closed
        (command none ∷ stalls)
        running
        (roomy (commands_bytes set_zero)) in
    (status_of left.shared).point_rate ≡ 0
next_points-zero_rate_example =
    next_points-zero_rate fractions fractions-DividesAsIeee 11 (writer_to_laws slice_write)
      slice_reader_laws closed (command none ∷ stalls) running (roomy (commands_bytes set_zero))
      (omega arith) roomy-HasBuffer running-IsStatus set_zero-panics
