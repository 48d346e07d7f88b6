-- ===== src/Examples/Streaming/Played.antt =====
-- What the emulated DAC plays while ether-dream/examples/dac_stream.rs streams to it: the
-- specification is the wave of that example.
use ether_dream.Base.{
  Option, ℕ, ◌+◌, ◌≡◌, ◌∙◌, refl, sym, ap, subst, List, [], ◌∷◌, ◌++◌, append-nil, append_assoc,
  length, length-append, some, ok, err,
}
use ether_dream.Protocol.{DacPoint}
use ether_dream.Dac.{Dac}
use ether_dream.Dac.Bitflags.{Bitflags, DropsUnknownBits}
use ether_dream.Emulator.{Shared, Output}
use ether_dream.Emulator.Emit.{output_or_underflow, Progress, finish}
use ether_dream.Emulator.Emit.Due.{schedule_lem, emit_done_lem, emit_done-IsDue}
use ether_dream.Examples.Wave.{
  F32, SineWave, ahead, ahead_add, ahead-zero, AreWave, AreWave-none, AreWave-append, take_points,
  CastsInRange,
}
use ether_dream.Examples.Streaming.{points_to_generate}
use ether_dream.Examples.Streaming.Show.{
  Show, answer, Step, tops_up, schedules, emits, Steps, stay, goes, IsOnAir,
}
use ether_dream.Examples.Streaming.Filling.{next_batch, Step-IsOnAir, view_after}

-- An underflow puts nothing out.
abbrev pub output_points : Output → List DacPoint
output_points (ok points) = points
output_points (err _) = []

output_points-output_or_underflow :
    (ps : List DacPoint) → output_points (output_or_underflow ps) ≡ ps
output_points-output_or_underflow [] = refl
output_points-output_or_underflow (pt ∷ ps) = refl

put_out :
    (s s' : Shared) (out : Output) (q : Progress)
    → out ≡ output_or_underflow q.output
    → s' ≡ (finish s q).1
    → q.output ++ q.buffer ≡ s.state.buffer
    → s.state.buffer ≡ output_points out ++ s'.state.buffer
unfolding finish
put_out s s' out q e leaves kept =
    rw (e, leaves, output_points-output_or_underflow q.output) (sym kept)

module _ (f : F32) where
  -- Some points further: those taken from the wave have gone behind the others, and those that
  -- were played came off the front.
  pub record PlaysOn (x y : Show f) (played : List DacPoint) : Type 0 where
    pub points : List DacPoint
    pub are : AreWave f x.wave (length points) points
    pub in_order : x.dac.state.buffer ++ points ≡ played ++ y.dac.state.buffer
    pub goes_on : y.wave ≡ ahead f (length points) x.wave

  PlaysOn-trans :
      (x m y : Show f) (played played' : List DacPoint)
      → PlaysOn x m played
      → PlaysOn m y played'
      → PlaysOn x y (played ++ played')
  PlaysOn-trans x m y played played' h h' =
      let n = length h.points in
      let k = length h'.points in
      let sized : length (h.points ++ h'.points) ≡ n + k = length-append h.points h'.points in
      let next : AreWave f (ahead f n x.wave) k h'.points =
        subst (λ w. AreWave f w k h'.points) h.goes_on h'.are in
      record {
        points = h.points ++ h'.points;
        are =
            subst (λ j. AreWave f x.wave j (h.points ++ h'.points)) (sym sized)
              (AreWave-append f x.wave n k h.points h'.points h.are next);
        in_order =
            sym (append_assoc x.dac.state.buffer h.points h'.points)
            ∙ ap (λ ps. ps ++ h'.points) h.in_order
            ∙ append_assoc played m.dac.state.buffer h'.points
            ∙ ap (λ ps. played ++ ps) h'.in_order
            ∙ sym (append_assoc played played' y.dac.state.buffer);
        goes_on =
            h'.goes_on
            ∙ ap (ahead f k) h.goes_on
            ∙ ahead_add f n k x.wave
            ∙ ap (λ j. ahead f j x.wave) (sym sized);
      }

  module _ ⦃b : Bitflags⦄ where
    PlaysOn-none :
        (x y : Show f) (played : List DacPoint)
        → IsOnAir f x
        → y.wave ≡ x.wave
        → x.dac.state.buffer ≡ played ++ y.dac.state.buffer
        → PlaysOn x y played
    PlaysOn-none x y played h same kept = record {
      points = [];
      are = AreWave-none f x.wave;
      in_order = append-nil x.dac.state.buffer ∙ kept;
      goes_on = same ∙ sym (ahead-zero f x.wave h.wave);
    }

    unfoldable pub step_plays :
        {rate_interval : ℕ → Option ℕ} (x y : Show f) → Step f rate_interval x y → List DacPoint
    step_plays x y (tops_up s view wave wave' points h) = []
    step_plays x y (schedules now next s s' view wave h) = []
    step_plays x y (emits now fuel out s s' view wave h) = output_points out

    -- All that is put out along the way.
    unfoldable pub plays :
        {rate_interval : ℕ → Option ℕ} (x y : Show f) → Steps f rate_interval x y → List DacPoint
    unfolding step_plays
    plays x y (stay _) = []
    plays x y (goes _ m _ step steps) = step_plays x m step ++ plays m y steps

    module _ (laws : DropsUnknownBits b) (casts : CastsInRange f) where
      tops_up-PlaysOn :
          (x : Show f) (view' : Dac) (wave' : SineWave f) (points : List DacPoint)
          → IsOnAir f x
          → take_points f (points_to_generate x.view) x.wave ≡ some (points, wave')
          → PlaysOn x (record { dac = (answer points x.dac).1; view = view'; wave = wave' }) []
      tops_up-PlaysOn x view' wave' points h takes =
          let (points', t) = next_batch f laws casts x h in
          let same : points' ≡ points = cc (t.wave) in
          let moved : ahead f (length points') x.wave ≡ wave' = cc (t.wave) in
          let (dac, view) = view_after f laws casts x points' h t in
          record {
            points = points';
            are = t.are;
            in_order = sym (
                ap (λ (s : Shared). s.state.buffer)
                  (ap (λ ps. (answer ps x.dac).1) (sym same) ∙ dac));
            goes_on = sym moved;
          }

      Step-PlaysOn :
          {rate_interval : ℕ → Option ℕ} (x y : Show f) (step : Step f rate_interval x y)
          → IsOnAir f x
          → PlaysOn x y (step_plays x y step)
      unfolding step_plays
      Step-PlaysOn x y (tops_up s view wave wave' points takes) h =
          tops_up-PlaysOn x _ wave' points h takes
      Step-PlaysOn x y (schedules now next s s' view wave e) h =
          let (plays, same, kept, due) = schedule_lem now next s s' e in
          PlaysOn-none x y [] h refl (sym kept)
      Step-PlaysOn x y (emits now fuel out s s' view wave e) h =
          let ended = emit_done_lem _ now fuel s (emit_done-IsDue _ now fuel s e) e in
          PlaysOn-none x y (output_points out) h refl
            (put_out s s' out ended.progress ended.puts_out ended.leaves ended.in_order)

      -- What the DAC plays is the wave. Let the DAC be sound and prepared or playing, with
      -- declared flags, and let the client's view have its capacity and count no fewer points
      -- than there are, but fewer than the capacity. Then in whatever order the client sends
      -- batches, and emissions begin to wait and put points out: all that was put out, followed
      -- by what the buffer still holds, is what the buffer held at first, followed by the points
      -- of the wave from where it stood, each at its own counter; and the wave goes on behind the
      -- last of them. So no point of the wave is left out, repeated or played out of order. The
      -- wave has frames, casts to `i16` are in range, and `from_bits_truncate` drops the
      -- undeclared bits.
      pub Steps-PlaysOn :
          {rate_interval : ℕ → Option ℕ} (x y : Show f) (steps : Steps f rate_interval x y)
          → IsOnAir f x
          → PlaysOn x y (plays x y steps)
      unfolding plays
      Steps-PlaysOn x y (stay _) h = PlaysOn-none x x [] h refl refl
      Steps-PlaysOn x y (goes _ m _ step steps) h =
          PlaysOn-trans x m y (step_plays x m step) (plays m y steps) (Step-PlaysOn x m step h)
            (Steps-PlaysOn m y steps (Step-IsOnAir f laws casts x m step h))
