-- ===== src/Examples/Default.antt =====
-- dac-emulator/examples/dac_emulator_default.rs: the emulator that counts what it puts out. A line of
-- what it prints stands for the values in it.
use ether_dream.Base.{
  ℕ, ◌+◌, ◌%◌, ◌^◌, ◌==◌, Bool, List, [], ◌∷◌, ◌++◌, if◌then◌else◌, Option, none, some, Result, ok,
  err,
}
use ether_dream.Base.Int.{ℤ, pos, negsuc, i32_of_u32}
use ether_dream.Io.{IoError}
use ether_dream.Emulator.{Output}
use ether_dream.Emulator.Setup.{Description}

pub data Line (Addr : Type 0) : Type 0 where
  creating : Description → Line Addr
  connected : Addr → Line Addr
  point_count : ℤ → Line Addr
  disconnected : Addr → Line Addr
  stopped : IoError → Line Addr

-- `i % 10000 == 0`: the sign of the remainder makes no difference.
unfoldable pub is_reported : ℤ → Bool
is_reported (pos n) = n % 10000 == 0
is_reported (negsuc n) = (n + 1) % 10000 == 0

module _ {Addr : Type 0} where
  -- The inner loop, over what `next_points` yields until its error. The counter is an `i32`, given
  -- by its bits; it wraps around as in a release build.
  unfoldable pub count_points : ℕ → List Output → List (Line Addr)
  unfolding is_reported i32_of_u32
  count_points i [] = []
  count_points i (_ ∷ outputs) =
      let i' = (i + 1) % 2 ^ 32 in
      let rest = count_points i' outputs in
      if is_reported (i32_of_u32 i') then point_count (i32_of_u32 i') ∷ rest else rest

  -- The loop over what `accept` yields, up to its error, which is the result; without one the loop
  -- is still waiting.
  unfoldable pub listen :
      List (Result IoError (Addr × List Output))
      → List (Line Addr) × Option (Result IoError (Unit {0}))
  unfolding count_points
  listen [] = ([], none)
  listen (err e ∷ rest) = (stopped e ∷ [], some (err e))
  listen (ok (addr, outputs) ∷ rest) =
      let (lines, result) = listen rest in
      (connected addr ∷ (count_points 0 outputs ++ disconnected addr ∷ lines), result)
