-- ===== src/Emulator/Emit/Ends.antt =====
-- When the loop of `emit_points` in dac-emulator/src/stream.rs ends.
use ether_dream.Base.{
  Nat-cases, ◌↔◌, Option, ℕ, zero, suc, ◌+◌, ◌<◌, ◌≡◌, refl, arith, [], lt→ltb, inl, inr, some,
}
use ether_dream.Emulator.{Shared, Output}
use ether_dream.Emulator.Emit.{
  done, out_of_fuel, Progress, pop_front, emit_loop, output_or_underflow, interval_of, loop_at,
  finish_loop, emit,
}
use ether_dream.Emulator.Emission.{pop_front-next, emit-Emitted}

-- At the interval 0 the loop of an emission whose next moment is in the past does not end with
-- any fuel.
emit_loop-endless :
    (now fuel : ℕ) (p : Progress) → p.next < now → emit_loop 0 now fuel p ≡ out_of_fuel
unfolding emit_loop
emit_loop-endless now zero p h = rw (lt→ltb _ _ h)
emit_loop-endless now (suc fuel) p h =
    let moved : Progress = record p { next = p.next + 0 } in
    rw (lt→ltb _ _ h)
      (emit_loop-endless now fuel (pop_front moved) (omega (arith, pop_front-next moved, h)))

-- An emission that is due in the past, at a rate that has an interval, ends with some fuel
-- exactly when the interval is positive.
pub emit-ends :
    (rate_interval : ℕ → Option ℕ) (now next interval : ℕ) (s : Shared)
    → s.state.next_point_emission ≡ some next
    → next < now
    → interval_of rate_interval s ≡ some interval
    → ((fuel : ℕ) × (result : Output × Shared) × (emit rate_interval now fuel s ≡ done result))
      ↔ (0 < interval)
unfolding emit loop_at finish_loop
emit-ends rate_interval now next interval s due past timed = (positive, ends)
  where
    positive :
        ((fuel : ℕ) × (result : Output × Shared) × (emit rate_interval now fuel s ≡ done result))
        → 0 < interval
    positive (fuel, result, e) = elim (Nat-cases interval) [
      | inl stands ↦
          let start : Progress = record { next = next; buffer = s.state.buffer; output = [] } in
          let endless : emit rate_interval now fuel s ≡ out_of_fuel =
            rw (due, timed, stands, emit_loop-endless now fuel start past) refl in
          absurd (cc (e, endless))
      | inr more ↦ more
    ]

    ends :
        0 < interval
        → (fuel : ℕ) × (result : Output × Shared) × (emit rate_interval now fuel s ≡ done result)
    ends pos =
        let (points, after, e, h) =
          emit-Emitted rate_interval now now next s due timed pos (omega arith) in
        (now, (output_or_underflow points, after), e)
