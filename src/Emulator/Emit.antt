-- ===== src/Emulator/Emit.antt =====
-- `emit_points` of dac-emulator/src/stream.rs, in its two parts: before the timer, and after it.
-- `rate_interval` is an argument: the interval, in nanoseconds, of a rate, or `none` where it panics.
pub mod Due
pub mod Ends
use ether_dream.Base.{
  ℕ, zero, suc, ◌+◌, ◌%◌, ◌^◌, List, [], ◌∷◌, ◌++◌, length, ltb, if◌then◌else◌, Option, none, some,
  ok, err,
}
use ether_dream.Protocol.{DacPoint}
use ether_dream.Dac.{Playback, playing}
use ether_dream.Emulator.{State, Shared, underflowed, Output}
use ether_dream.Emulator.Process.{with_status, status_of}

-- How a part of the program ends. `out_of_fuel` is no outcome of the program: its loop goes on.
pub data Ending (A : Type 0) : Type 0 where
  done : A → Ending A
  panicked : Ending A
  out_of_fuel : Ending A

-- `get_or_insert_with(Instant::now)`.
abbrev pub or_now : Option ℕ → ℕ → ℕ
or_now none now = now
or_now (some next) now = next

-- Before the timer: `none` if the playback is not `Playing`, where the future never completes; else
-- the moment to wait for.
schedule_when : Playback → ℕ → Shared → Option (ℕ × Shared)
schedule_when playing now s =
    let next = or_now s.state.next_point_emission now in
    some (next, record s { state = record s.state { next_point_emission = some next } })
schedule_when _ now s = none

unfoldable pub schedule : ℕ → Shared → Option (ℕ × Shared)
unfolding schedule_when
schedule now s = schedule_when (status_of s).playback now s

-- What the loop works on: the next moment, the buffer, and the points that were put out.
pub record Progress : Type 0 where
  pub next : ℕ
  pub buffer : List DacPoint
  pub output : List DacPoint

-- `if let Some(pt) = buffer.pop_front() { output.push(pt) }`.
unfoldable pub pop_front : Progress → Progress
pop_front p = elim p.buffer [
  | [] ↦ p
  | pt ∷ rest ↦ record p { buffer = rest; output = p.output ++ pt ∷ [] }
]

-- `while *next < now`.
unfoldable pub emit_loop : (interval now fuel : ℕ) → Progress → Ending Progress
emit_loop interval now zero p = if ltb p.next now then out_of_fuel else done p
emit_loop interval now (suc fuel) p =
    let rest = emit_loop interval now fuel (pop_front (record p { next = p.next + interval })) in
    if ltb p.next now then rest else done p

abbrev pub output_or_underflow : List DacPoint → Output
output_or_underflow [] = err underflowed
output_or_underflow (pt ∷ rest) = ok (pt ∷ rest)

-- After the loop: the counters are `u16` and `u32`, and wrap as in a release build.
unfoldable pub finish : Shared → Progress → Output × Shared
finish s p =
    let status = record (status_of s) {
      buffer_fullness = length p.buffer % 2 ^ 16;
      point_count = ((status_of s).point_count + length p.output % 2 ^ 32) % 2 ^ 32;
    } in
    let state : State = record { next_point_emission = some p.next; buffer = p.buffer } in
    (output_or_underflow p.output, record (with_status s status) { state = state })

unfoldable pub finish_loop : Shared → Ending Progress → Ending (Output × Shared)
finish_loop s (done p) = done (finish s p)
finish_loop s panicked = panicked
finish_loop s out_of_fuel = out_of_fuel

-- The interval at the current rate.
abbrev pub interval_of : (rate_interval : ℕ → Option ℕ) → Shared → Option ℕ
interval_of rate_interval s = rate_interval (status_of s).point_rate

-- The loop at the interval, where `rate_interval` gives one.
unfoldable pub loop_at : Option ℕ → (now fuel : ℕ) → Progress → Ending Progress
loop_at none now fuel p = panicked
loop_at (some interval) now fuel p = emit_loop interval now fuel p

-- `next_point_emission.as_mut().unwrap()`, then the loop.
emit_from : (rate_interval : ℕ → Option ℕ) → ℕ → ℕ → Shared → Option ℕ → Ending (Output × Shared)
unfolding finish_loop
emit_from rate_interval now fuel s none = panicked
emit_from rate_interval now fuel s (some next) = finish_loop s (
    loop_at (interval_of rate_interval s) now fuel
      (record { next = next; buffer = s.state.buffer; output = [] }))

-- After the timer.
unfoldable pub emit :
    (rate_interval : ℕ → Option ℕ) → (now fuel : ℕ) → Shared → Ending (Output × Shared)
unfolding emit_from finish
emit rate_interval now fuel s = emit_from rate_interval now fuel s s.state.next_point_emission
