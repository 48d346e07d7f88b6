-- ===== src/Emulator/Emit/Due.antt =====
-- What the two parts of `emit_points` in dac-emulator/src/stream.rs leave: its moment is set while it
-- waits, it only takes points off the front, and it panics nowhere but at a rate without an interval.
use ether_dream.Base.{
  List, ◌∷◌, ◌++◌, append_assoc, ap, length-append, ℕ, zero, suc, ◌+◌, ◌≤◌, ◌≡◌, ◌≢◌, ◌∙◌, refl,
  sym, subst, arith, [], length, Option, none, some,
}
use ether_dream.Protocol.{DacPoint}
use ether_dream.Dac.{playing}
use ether_dream.Emulator.{Shared, Output}
use ether_dream.Emulator.Process.{status_of}
use ether_dream.Emulator.Invariant.{IsSound}
use ether_dream.Emulator.Emit.{
  Ending, done, panicked, out_of_fuel, Progress, pop_front, emit_loop, schedule, finish,
  interval_of, loop_at, finish_loop, output_or_underflow, emit,
}

-- A moment is set.
abbrev pub IsDue : Shared → Type 0
IsDue s = (next : ℕ) × (s.state.next_point_emission ≡ some next)

pub schedule_lem :
    (now next : ℕ) (s s' : Shared)
    → schedule now s ≡ some (next, s')
    → ((status_of s).playback ≡ playing)
      × (s'.dac ≡ s.dac)
      × (s'.state.buffer ≡ s.state.buffer)
      × (s'.state.next_point_emission ≡ some next)
unfolding schedule
schedule_lem now next s s' h = ground arith

-- The points that are put out and those that are left are all there are, in order.
pub pop_front-kept :
    (p : Progress) → (pop_front p).output ++ (pop_front p).buffer ≡ p.output ++ p.buffer
unfolding pop_front
pop_front-kept p = kept p.next p.buffer p.output
  where
    kept :
        (next : ℕ) (buffer output : List DacPoint)
        → let q = pop_front (record { next = next; buffer = buffer; output = output }) in
          q.output ++ q.buffer ≡ output ++ buffer
    kept next [] output = refl
    kept next (pt ∷ rest) output = append_assoc output (pt ∷ []) rest

emit_loop-kept :
    (interval now fuel : ℕ) (p q : Progress)
    → emit_loop interval now fuel p ≡ done q
    → q.output ++ q.buffer ≡ p.output ++ p.buffer
unfolding emit_loop
emit_loop-kept interval now zero p q h = ground arith
emit_loop-kept interval now (suc fuel) p q h =
    let moved : Progress = record p { next = p.next + interval } in
    ground (arith, pop_front-kept moved, emit_loop-kept interval now fuel (pop_front moved) q)

emit_loop-panicked :
    (interval now fuel : ℕ) (p : Progress) → emit_loop interval now fuel p ≢ panicked
unfolding emit_loop
emit_loop-panicked interval now zero p h = ground arith
emit_loop-panicked interval now (suc fuel) p h =
    let moved : Progress = record p { next = p.next + interval } in
    ground (arith, emit_loop-panicked interval now fuel (pop_front moved))

loop_at-kept :
    (interval : Option ℕ) (now fuel : ℕ) (p q : Progress)
    → loop_at interval now fuel p ≡ done q
    → q.output ++ q.buffer ≡ p.output ++ p.buffer
unfolding loop_at
loop_at-kept none now fuel p q h = cc
loop_at-kept (some interval) now fuel p q h = emit_loop-kept interval now fuel p q h

loop_at-panicked :
    {at : Option ℕ} {interval : ℕ} (timed : at ≡ some interval) (now fuel : ℕ) (p : Progress)
    → loop_at at now fuel p ≢ panicked
unfolding loop_at
loop_at-panicked {interval} timed now fuel p h =
    emit_loop-panicked interval now fuel p (rw timed at h)

-- What the loop starts from.
abbrev start : ℕ → Shared → Progress
start next s = record { next = next; buffer = s.state.buffer; output = [] }

abbrev loop_of : (ℕ → Option ℕ) → ℕ → ℕ → ℕ → Shared → Ending Progress
loop_of rate_interval now fuel next s =
    loop_at (interval_of rate_interval s) now fuel (start next s)

emit-due :
    (rate_interval : ℕ → Option ℕ) (now fuel next : ℕ) (s : Shared)
    → s.state.next_point_emission ≡ some next
    → emit rate_interval now fuel s ≡ finish_loop s (loop_of rate_interval now fuel next s)
unfolding emit
emit-due rate_interval now fuel next s due = rw due refl

pub finish-IsSound :
    (s : Shared) (q : Progress)
    → IsSound s
    → length q.buffer ≤ length s.state.buffer
    → IsSound (finish s q).1
unfolding finish
finish-IsSound s q h shorter = record {
  capacity = h.capacity;
  bounded = omega (arith, h.bounded, shorter);
  counted = omega (arith, h.bounded, h.capacity, shorter);
  engine = h.engine;
}

-- What an emission that ends with `out` makes of `s`: points from the front are put out, and the
-- counters are brought up to date.
pub record Finishes (s : Shared) (out : Output) (s' : Shared) : Type 0 where
  pub progress : Progress
  pub leaves : s' ≡ (finish s progress).1
  pub puts_out : out ≡ output_or_underflow progress.output
  pub in_order : progress.output ++ progress.buffer ≡ s.state.buffer
  pub shorter : length progress.buffer ≤ length s.state.buffer

pub emit_done_lem :
    (rate_interval : ℕ → Option ℕ) (now fuel : ℕ) (s : Shared) {out : Output} {s' : Shared}
    → IsDue s
    → emit rate_interval now fuel s ≡ done (out, s')
    → Finishes s out s'
unfolding finish_loop finish
emit_done_lem rate_interval now fuel s {out} {s'} (next, due) ends =
    ended (loop_of rate_interval now fuel next s) refl
      (sym (emit-due rate_interval now fuel next s due) ∙ ends)
  where
    ended :
        (r : Ending Progress)
        → loop_of rate_interval now fuel next s ≡ r
        → finish_loop s r ≡ done (out, s')
        → Finishes s out s'
    ended (done q) loop e =
        let kept : q.output ++ q.buffer ≡ s.state.buffer =
          loop_at-kept _ now fuel (start next s) q loop in
        record {
          progress = q;
          leaves = cc;
          puts_out = cc;
          in_order = kept;
          shorter = omega (arith, ap length kept, length-append q.output q.buffer);
        }
    ended panicked loop e = cc
    ended out_of_fuel loop e = cc

-- An emission that ends keeps the state sound, whatever the interval.
pub emit_done-IsSound :
    (rate_interval : ℕ → Option ℕ) (now fuel : ℕ) (s : Shared) {out : Output} {s' : Shared}
    → IsDue s
    → IsSound s
    → emit rate_interval now fuel s ≡ done (out, s')
    → IsSound s'
emit_done-IsSound rate_interval now fuel s due sound ends =
    let h = emit_done_lem rate_interval now fuel s due ends in
    subst IsSound (sym h.leaves) (finish-IsSound s h.progress sound h.shorter)

-- Only an emission that is due ends.
pub emit_done-IsDue :
    (rate_interval : ℕ → Option ℕ) (now fuel : ℕ) (s : Shared) {out : Output} {s' : Shared}
    → emit rate_interval now fuel s ≡ done (out, s')
    → IsDue s
unfolding emit
emit_done-IsDue rate_interval now fuel s {out} {s'} ends = set s.state.next_point_emission refl
  where
    set : (m : Option ℕ) → s.state.next_point_emission ≡ m → IsDue s
    set none e = absurd (ground (arith, e, ends))
    set (some next) e = (next, e)

-- When a moment is set the `unwrap` does not panic.
pub emit-panicked :
    (rate_interval : ℕ → Option ℕ) (now fuel : ℕ) (s : Shared) {interval : ℕ}
    → IsDue s
    → interval_of rate_interval s ≡ some interval
    → emit rate_interval now fuel s ≢ panicked
unfolding finish_loop
emit-panicked rate_interval now fuel s (next, due) timed h =
    ended (loop_of rate_interval now fuel next s) refl
      (sym (emit-due rate_interval now fuel next s due) ∙ h)
  where
    ended :
        (r : Ending Progress)
        → loop_of rate_interval now fuel next s ≡ r
        → finish_loop s r ≡ panicked
        → ⊥
    ended (done q) loop e = cc
    ended panicked loop e = loop_at-panicked timed now fuel (start next s) loop
    ended out_of_fuel loop e = cc

pub schedule-IsSound :
    (now next : ℕ) (s s' : Shared) → schedule now s ≡ some (next, s') → IsSound s → IsSound s'
schedule-IsSound now next s s' h sound =
    let (plays, same, kept, due) = schedule_lem now next s s' h in
    record {
      capacity = rw same sound.capacity;
      bounded = rw (same, kept) sound.bounded;
      counted = rw (same, kept) sound.counted;
      engine = rw same sound.engine;
    }
