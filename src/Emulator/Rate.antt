-- ===== src/Emulator/Rate.antt =====
-- `rate_interval` of dac-emulator/src/stream.rs: the time between two points at a rate. `f64` is a
-- parameter: a type with the operations that the function takes from it.
use ether_dream.Base.{
  ℕ, ◌+◌, ◌*◌, ◌-◌, ◌/◌, ◌^◌, ◌≤◌, ◌<◌, ◌≡◌, refl, arith, ltb, if◌then◌else◌, Option, none, some,
  ◌↔◌, inl, inr, Nat-cases,
}
use ether_dream.Io.Bytes.{IsU32}
use ether_dream.Emulator.{Shared}
use ether_dream.Emulator.Process.{status_of}
use ether_dream.Emulator.Emit.{panicked, loop_at, finish_loop, emit}
use ether_dream.Emulator.Emit.Due.{IsDue, emit-panicked}

pub record F64 : Type 1 where
  pub F : Type 0
  pub of_u32 : ℕ → F
  pub of_u64 : ℕ → F
  pub one : F
  pub billion : F
  pub minus : F → F → F
  pub times : F → F → F
  pub over : F → F → F
  pub to_u32 : F → ℕ
  pub to_u64 : F → ℕ

-- `Duration::new` of the standard library, as the nanoseconds of the duration: whole seconds among
-- the nanoseconds are carried over, and it panics where the seconds then overflow.
unfoldable pub duration_new : (secs nanos : ℕ) → Option ℕ
duration_new secs nanos =
    if ltb (secs + nanos / 10 ^ 9) (2 ^ 64) then some (secs * 10 ^ 9 + nanos) else none

module _ (f : F64) where
  open f use {F, of_u32, of_u64, one, billion, minus, times, over, to_u32, to_u64}

  abbrev secsf : ℕ → F
  secsf hz = over one (of_u32 hz)

  unfoldable pub rate_interval : ℕ → Option ℕ
  unfolding duration_new
  rate_interval hz =
      let secs = to_u64 (secsf hz) in
      let nanos = to_u32 (times billion (minus (secsf hz) (of_u64 secs))) in duration_new secs nanos

  -- What IEEE 754 and the casts of the language say of these operations: dividing by zero gives an
  -- infinity, which stays one; a quotient of 1 by a whole number is at most 1; a cast of an infinity
  -- gives the greatest number, and any cast gives one of its type.
  pub record DividesAsIeee : Type 0 where
    pub infinity : F
    pub by_zero : over one (of_u32 0) ≡ infinity
    pub at_most_one : (hz : ℕ) → 0 < hz → IsU32 hz → to_u64 (over one (of_u32 hz)) ≤ 1
    pub infinity_less : (n : ℕ) → minus infinity (of_u64 n) ≡ infinity
    pub infinity_times : times billion infinity ≡ infinity
    pub infinity_u32 : to_u32 infinity ≡ 2 ^ 32 - 1
    pub infinity_u64 : to_u64 infinity ≡ 2 ^ 64 - 1
    pub is_u32 : (a : F) → to_u32 a < 2 ^ 32

  module _ (ieee : DividesAsIeee) where
    rate_interval-zero : rate_interval 0 ≡ none
    unfolding rate_interval duration_new
    rate_interval-zero =
        rw
          (
            ieee.by_zero,
            ieee.infinity_less (to_u64 ieee.infinity),
            ieee.infinity_times,
            ieee.infinity_u32,
            ieee.infinity_u64,
          )
          refl

    rate_interval-suc :
        (hz : ℕ) → 0 < hz → IsU32 hz → (interval : ℕ) × (rate_interval hz ≡ some interval)
    unfolding rate_interval duration_new
    rate_interval-suc hz pos range =
        let secs = to_u64 (secsf hz) in
        let nanos = to_u32 (times billion (minus (secsf hz) (of_u64 secs))) in
        let small = ieee.at_most_one hz pos range in
        let low = ieee.is_u32 (times billion (minus (secsf hz) (of_u64 secs))) in
        (secs * 10 ^ 9 + nanos, ground (arith, small, low))

    pub rate_interval-none : (hz : ℕ) → IsU32 hz → rate_interval hz ≡ none → hz ≡ 0
    rate_interval-none hz range untimed = elim (Nat-cases hz) [
      | inl zero_rate ↦ zero_rate
      | inr more ↦ let (interval, timed) = rate_interval-suc hz more range in cc
    ]

    -- An emission that is due panics exactly at the point rate 0, whatever the clock and the
    -- fuel: there the seconds of the interval overflow. `f64` and the casts from it are as IEEE
    -- 754 and the language document them.
    pub emit-zero_rate :
        (now fuel : ℕ) (s : Shared)
        → IsDue s
        → IsU32 (status_of s).point_rate
        → (emit rate_interval now fuel s ≡ panicked) ↔ ((status_of s).point_rate ≡ 0)
    unfolding emit loop_at finish_loop
    emit-zero_rate now fuel s due range = (only_zero, at_zero)
      where
        at_zero : (status_of s).point_rate ≡ 0 → emit rate_interval now fuel s ≡ panicked
        at_zero zero_rate = rw (due.1, zero_rate, rate_interval-zero) refl

        only_zero : emit rate_interval now fuel s ≡ panicked → (status_of s).point_rate ≡ 0
        only_zero panics = elim (Nat-cases (status_of s).point_rate) [
          | inl zero_rate ↦ zero_rate
          | inr more ↦
              let (interval, timed) = rate_interval-suc (status_of s).point_rate more range in
              absurd (emit-panicked rate_interval now fuel s due timed panics)
        ]
