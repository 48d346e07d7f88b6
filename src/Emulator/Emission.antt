-- ===== src/Emulator/Emission.antt =====
-- The points come out in order, and none is lost or made up.
use ether_dream.Base.{
  Option, ℕ, zero, suc, ◌+◌, ◌*◌, ◌%◌, ◌^◌, ◌≤◌, ◌<◌, ◌≡◌, refl, arith, ap, sym, ◌∙◌, List, [], ◌∷◌,
  ◌++◌, length, length-append, ltb, ltb→lt, le→ltb, ltb→le, min, suc-mul, Bool-cases, ◌⊎◌, inl, inr,
  some,
}
use ether_dream.Protocol.{DacPoint}
use ether_dream.Emulator.{Shared, Output}
use ether_dream.Emulator.Process.{status_of, with_status, capacity_of}
use ether_dream.Emulator.Invariant.{IsSound}
use ether_dream.Emulator.Emit.Due.{pop_front-kept}
use ether_dream.Emulator.Emit.{
  done, Progress, pop_front, emit_loop, finish, output_or_underflow, interval_of, loop_at,
  finish_loop, emit,
}

-- `q` follows `p` by some rounds: the same points in the same order, one more put out for each round
-- while there are any; and the rounds are as many as it takes to catch up with the clock.
pub record Follows (now interval : ℕ) (p q : Progress) : Type 0 where
  pub rounds : ℕ
  pub moved : q.next ≡ p.next + rounds * interval
  pub put_out : length q.output ≡ length p.output + min rounds (length p.buffer)
  pub kept : q.output ++ q.buffer ≡ p.output ++ p.buffer
  pub caught_up : now ≤ q.next
  pub in_time : (rounds ≡ 0) ⊎ (q.next < now + interval)

pub pop_front-next : (p : Progress) → (pop_front p).next ≡ p.next
unfolding pop_front
pop_front-next p = ground arith

-- A round puts out a point, if there is one.
pop_front-counts :
    (p : Progress) (k : ℕ)
    → length (pop_front p).output + min k (length (pop_front p).buffer)
      ≡ length p.output + min (suc k) (length p.buffer)
unfolding pop_front
pop_front-counts p k = counts p.next p.buffer p.output
  where
    counts :
        (next : ℕ) (buffer output : List DacPoint)
        → let q = pop_front (record { next = next; buffer = buffer; output = output }) in
          length q.output + min k (length q.buffer) ≡ length output + min (suc k) (length buffer)
    counts next [] output = omega arith
    counts next (pt ∷ rest) output = omega (arith, length-append output (pt ∷ []))

-- One round more.
Follows-round :
    {now interval : ℕ} {p q : Progress}
    → p.next < now
    → Follows now interval (pop_front (record p { next = p.next + interval })) q
    → Follows now interval p q
Follows-round {now} {interval} {p} {q} more h =
    let behind : Progress = record p { next = p.next + interval } in
    let next = pop_front-next behind in
    let product : suc h.rounds * interval ≡ interval + h.rounds * interval =
      omega (arith, suc-mul h.rounds interval) in
    let moved : q.next ≡ p.next + suc h.rounds * interval = omega (arith, h.moved, next, product) in
    record {
      rounds = suc h.rounds;
      moved = moved;
      put_out = h.put_out ∙ pop_front-counts behind h.rounds;
      kept = h.kept ∙ pop_front-kept behind;
      caught_up = h.caught_up;
      in_time = in_time moved h.in_time;
    }
  where
    in_time :
        q.next ≡ p.next + suc h.rounds * interval
        → (h.rounds ≡ 0) ⊎ (q.next < now + interval)
        → (suc h.rounds ≡ 0) ⊎ (q.next < now + interval)
    in_time moved (inl e) =
        let one : suc h.rounds * interval ≡ interval = rw e (omega arith) in
        inr (omega (arith, more, moved, one))
    in_time moved (inr fast) = inr fast

-- The clock has caught up already.
Follows-none : {now interval : ℕ} (p : Progress) → now ≤ p.next → Follows now interval p p
Follows-none p h = record {
  rounds = 0;
  moved = omega arith;
  put_out = omega arith;
  kept = refl;
  caught_up = h;
  in_time = inl refl;
}

-- With a positive interval the loop ends, after no more rounds than there are nanoseconds to go.
emit_loop-Follows :
    (interval now fuel : ℕ) (p : Progress)
    → 0 < interval
    → now ≤ p.next + fuel
    → (q : Progress) × (emit_loop interval now fuel p ≡ done q) × Follows now interval p q
unfolding emit_loop
emit_loop-Follows interval now zero p pos enough =
    let caught_up : now ≤ p.next = omega arith in
    (p, rw (le→ltb _ _ caught_up) refl, Follows-none p caught_up)
emit_loop-Follows interval now (suc fuel) p pos enough =
    let behind : Progress = record p { next = p.next + interval } in
    let next = pop_front-next behind in
    elim (Bool-cases (ltb p.next now)) [
      | inl more ↦
          let (q, ends, h) =
            emit_loop-Follows interval now fuel (pop_front behind) pos (omega arith) in
          (q, rw more ends, Follows-round (ltb→lt _ _ more) h)
      | inr less ↦ (p, rw less refl, Follows-none p (ltb→le _ _ less))
    ]

-- What an emission that was due at `next` makes of `s`.
pub record Emitted (now interval next : ℕ) (s : Shared) (points : List DacPoint) (after : Shared)
    : Type 0 where
  pub rounds : ℕ
  pub in_order : points ++ after.state.buffer ≡ s.state.buffer
  pub as_many : length points ≡ min rounds (length s.state.buffer)
  pub resumes : after.state.next_point_emission ≡ some (next + rounds * interval)
  pub caught_up : now ≤ next + rounds * interval
  pub in_time : (rounds ≡ 0) ⊎ (next + rounds * interval < now + interval)
  pub fullness : (status_of after).buffer_fullness ≡ length after.state.buffer % 2 ^ 16
  pub point_count :
      (status_of after).point_count ≡ ((status_of s).point_count + length points) % 2 ^ 32
  pub only_counts :
      after.dac
      ≡ (with_status s (record (status_of s) {
        buffer_fullness = (status_of after).buffer_fullness;
        point_count = (status_of after).point_count;
      })).dac

-- Once an emission is due, the rate has an interval, which is positive, and the fuel covers the
-- nanoseconds between the moment that is due and the clock, the emission ends. The points that
-- are put out followed by those that are left are the buffer from before; as many are put out as
-- the rounds that are counted, or all there are; the next moment lies that many intervals on, is
-- not before the clock, and less than one interval beyond it unless there was no round; fullness
-- and point count are brought up to date, and nothing else of the DAC changes. Without a point
-- the outcome is an underflow.
pub emit-Emitted :
    (rate_interval : ℕ → Option ℕ) (now fuel next : ℕ) (s : Shared) {interval : ℕ}
    → s.state.next_point_emission ≡ some next
    → interval_of rate_interval s ≡ some interval
    → 0 < interval
    → now ≤ next + fuel
    → (points : List DacPoint) × (after : Shared) × (emit rate_interval now fuel s
        ≡ done (output_or_underflow points, after))
      × Emitted now interval next s points after
unfolding emit loop_at finish_loop
emit-Emitted rate_interval now fuel next s {interval} due timed pos enough =
    let start : Progress = record { next = next; buffer = s.state.buffer; output = [] } in
    let (q, ends, h) = emit_loop-Follows interval now fuel start pos enough in
    (
      q.output,
      (finish s q).1,
      rw (due, timed, ends) refl,
      record {
        rounds = h.rounds;
        in_order = h.kept;
        as_many = h.put_out ∙ omega arith;
        resumes = rw h.moved refl;
        caught_up = omega (arith, h.moved, h.caught_up);
        in_time = rw (sym h.moved) h.in_time;
        fullness = refl;
        point_count = omega arith;
        only_counts = refl;
      },
    )

-- An emission keeps the state sound.
Emitted-IsSound :
    {now interval next : ℕ} (s : Shared) {points : List DacPoint} {after : Shared}
    → IsSound s
    → Emitted now interval next s points after
    → IsSound after
Emitted-IsSound s {points} {after} sound h =
    let shorter : length after.state.buffer ≤ length s.state.buffer =
      omega (arith, ap length h.in_order, length-append points after.state.buffer) in
    let capacity : capacity_of after ≡ capacity_of s =
      ap (λ d. d.dac.buffer_capacity) h.only_counts in
    let engine : (status_of after).light_engine ≡ (status_of s).light_engine =
      ap (λ d. d.dac.status.light_engine) h.only_counts in
    let playback : (status_of after).playback ≡ (status_of s).playback =
      ap (λ d. d.dac.status.playback) h.only_counts in
    record {
      capacity = omega (arith, capacity, sound.capacity);
      bounded = omega (arith, shorter, capacity, sound.bounded);
      counted = omega (arith, h.fullness, shorter, sound.bounded, sound.capacity);
      engine = λ moving. engine ∙ sound.engine (λ e. moving (playback ∙ e));
    }

-- An emission from a sound state that is due, at a positive interval and with fuel for the
-- nanoseconds to go, ends, and leaves a sound state.
pub emit-IsSound :
    (rate_interval : ℕ → Option ℕ) (now fuel next : ℕ) (s : Shared) {interval : ℕ}
    → s.state.next_point_emission ≡ some next
    → interval_of rate_interval s ≡ some interval
    → 0 < interval
    → now ≤ next + fuel
    → IsSound s
    → (out : Output) × (after : Shared) × (emit rate_interval now fuel s ≡ done (out, after))
      × IsSound after
emit-IsSound rate_interval now fuel next s due timed pos enough sound =
    let (points, after, ends, h) =
      emit-Emitted rate_interval now fuel next s due timed pos enough in
    (output_or_underflow points, after, ends, Emitted-IsSound s sound h)
