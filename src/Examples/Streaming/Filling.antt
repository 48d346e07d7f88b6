-- ===== src/Examples/Streaming/Filling.antt =====
-- What ether-dream/examples/dac_stream.rs sends along the steps of Show, and the emulated DAC's answer.
use ether_dream.Base.{
  Option, ℕ, ◌+◌, ◌-◌, ◌≤◌, ◌<◌, ◌≡◌, ◌∙◌, sym, ap, subst, arith, List, length, length-append, some,
}
use ether_dream.Protocol.{DacPoint}
use ether_dream.Dac.{Dac}
use ether_dream.Dac.Bitflags.{Bitflags, DropsUnknownBits}
use ether_dream.Dac.Convert.{update_status, status_to_protocol}
use ether_dream.Dac.Conversion.{HasKnownFlags, status_from-to}
use ether_dream.Dac.Update.{update_status_lem}
use ether_dream.Emulator.{Shared}
use ether_dream.Emulator.Process.{status_of, capacity_of, process_command}
use ether_dream.Emulator.Emit.{Progress, schedule, finish}
use ether_dream.Emulator.Emit.Due.{
  schedule_lem, schedule-IsSound, emit_done_lem, emit_done-IsDue, finish-IsSound,
}
use ether_dream.Examples.Wave.{
  F32, SineWave, ahead, ahead-IsWave, AreWave, take_points, take_points_lem, CastsInRange,
}
use ether_dream.Examples.Streaming.{points_to_generate}
use ether_dream.Examples.Streaming.Batch.{points_to_generate_lem, extended, reply_data_fits}
use ether_dream.Examples.Streaming.Show.{
  Show, answer, Step, tops_up, schedules, emits, Steps, stay, goes, IsOnAir, IsTaken, IsAccepted,
}

module _ (f : F32) ⦃b : Bitflags⦄ where
  module _ (laws : DropsUnknownBits b) (casts : CastsInRange f) where
    pub next_batch : (c : Show f) → IsOnAir f c → (points : List DacPoint) × IsTaken f c points
    next_batch c h =
        let n = points_to_generate c.view in
        let many : n ≡ c.view.buffer_capacity - 1 - c.view.status.buffer_fullness =
          points_to_generate_lem c.view (omega (arith, h.below, h.capacity))
            (omega (arith, h.capacity, h.sound.capacity)) in
        let (points, takes, are) = take_points_lem f casts n c.wave h.wave in
        let below : length c.dac.state.buffer + length points < capacity_of c.dac =
          omega (arith, are.as_many, many, h.ahead, h.below, h.capacity) in
        (
          points,
          record {
            as_many = are.as_many ∙ many;
            replied = reply_data_fits c.dac points h.sound h.active (omega (arith, below));
            wave = rw are.as_many takes;
            below = below;
            are = subst (λ k. AreWave f c.wave k points) (sym are.as_many) are;
          },
        )

    -- The client's view after the response is the DAC's status.
    pub view_after :
        (c : Show f) (points : List DacPoint)
        → IsOnAir f c
        → IsTaken f c points
        → ((answer points c.dac).1 ≡ extended c.dac points)
          × ((update_status c.view (answer points c.dac).0.dac_status).1
              ≡ record c.view { status = status_of (extended c.dac points) })
    unfolding process_command
    view_after c points h t =
        let after = ap (λ r. r.1) t.replied in
        let flags : HasKnownFlags (status_of (extended c.dac points)) = record {
          light_engine_flags = h.flags.light_engine_flags;
          playback_flags = h.flags.playback_flags;
          data_source = h.flags.data_source;
        } in
        (
          after,
          ap (λ (s : Shared). (update_status c.view (status_to_protocol (status_of s))).1) after
              ∙ ap (λ r. r.1) (update_status_lem c.view _ (status_from-to laws _ flags)),
        )

    pub extended-IsOnAir :
        (c : Show f) (points : List DacPoint)
        → IsOnAir f c
        → IsTaken f c points
        → IsOnAir f (record {
          dac = extended c.dac points;
          view = record c.view { status = status_of (extended c.dac points) };
          wave = ahead f (length points) c.wave;
        })
    extended-IsOnAir c points h t =
        let sized = length-append c.dac.state.buffer points in
        record {
          sound = record {
            capacity = h.sound.capacity;
            bounded = omega (arith, sized, t.below);
            counted = omega (arith, sized, t.below, h.sound.capacity);
            engine = h.sound.engine;
          };
          active = h.active;
          flags = record {
            light_engine_flags = h.flags.light_engine_flags;
            playback_flags = h.flags.playback_flags;
            data_source = h.flags.data_source;
          };
          capacity = h.capacity;
          ahead = omega (arith, sized, t.below, h.sound.capacity);
          below = omega (arith, sized, t.below, h.sound.capacity);
          wave = ahead-IsWave f (length points) h.wave;
        }

    tops_up-IsOnAir :
        (c : Show f) (points : List DacPoint) (wave' : SineWave f)
        → IsOnAir f c
        → take_points f (points_to_generate c.view) c.wave ≡ some (points, wave')
        → IsOnAir f (record {
          dac = (answer points c.dac).1;
          view = (update_status c.view (answer points c.dac).0.dac_status).1;
          wave = wave';
        })
    tops_up-IsOnAir c points wave' h takes =
        let (points', t) = next_batch c h in
        let same : points' ≡ points = cc (t.wave) in
        let moved : ahead f (length points') c.wave ≡ wave' = cc (t.wave) in
        let (dac, view) = view_after c points' h t in
        rw (← same, ← moved, dac, view) (extended-IsOnAir c points' h t)

    schedules-IsOnAir :
        (now next : ℕ) (s s' : Shared) (view : Dac) (wave : SineWave f)
        → schedule now s ≡ some (next, s')
        → IsOnAir f (record { dac = s; view = view; wave = wave })
        → IsOnAir f (record { dac = s'; view = view; wave = wave })
    schedules-IsOnAir now next s s' view wave e h =
        let (plays, same, kept, due) = schedule_lem now next s s' e in
        record {
          sound = schedule-IsSound now next s s' e h.sound;
          active = rw same h.active;
          flags = rw same h.flags;
          capacity = rw same h.capacity;
          ahead = rw kept h.ahead;
          below = rw same h.below;
          wave = h.wave;
        }

    finish-IsOnAir :
        (s : Shared) (q : Progress) (view : Dac) (wave : SineWave f)
        → length q.buffer ≤ length s.state.buffer
        → IsOnAir f (record { dac = s; view = view; wave = wave })
        → IsOnAir f (record { dac = (finish s q).1; view = view; wave = wave })
    unfolding finish
    finish-IsOnAir s q view wave shorter h = record {
      sound = finish-IsSound s q h.sound shorter;
      active = h.active;
      flags = record {
        light_engine_flags = h.flags.light_engine_flags;
        playback_flags = h.flags.playback_flags;
        data_source = h.flags.data_source;
      };
      capacity = h.capacity;
      ahead = omega (arith, shorter, h.ahead);
      below = h.below;
      wave = h.wave;
    }

    pub Step-IsOnAir :
        {rate_interval : ℕ → Option ℕ} (x y : Show f)
        → Step f rate_interval x y
        → IsOnAir f x
        → IsOnAir f y
    Step-IsOnAir x y (tops_up s view wave wave' points takes) h =
        tops_up-IsOnAir x points wave' h takes
    Step-IsOnAir x y (schedules now next s s' view wave e) h =
        schedules-IsOnAir now next s s' view wave e h
    Step-IsOnAir x y (emits now fuel out s s' view wave e) h =
        let ended = emit_done_lem _ now fuel s (emit_done-IsDue _ now fuel s e) e in
        subst (λ t. IsOnAir f (record { dac = t; view = view; wave = wave })) (sym ended.leaves)
          (finish-IsOnAir s ended.progress view wave ended.shorter h)

    Steps-IsOnAir :
        {rate_interval : ℕ → Option ℕ} (x y : Show f)
        → Steps f rate_interval x y
        → IsOnAir f x
        → IsOnAir f y
    Steps-IsOnAir x y (stay _) h = h
    Steps-IsOnAir x y (goes _ m _ step steps) h = Steps-IsOnAir m y steps (Step-IsOnAir x m step h)

    -- Let the DAC be sound and prepared or playing, with declared flags, and let the client's
    -- view have its capacity and count no fewer points than there are, but fewer than the
    -- capacity. Then in whatever order the client sends batches, and emissions begin to wait and
    -- put points out: the client's next batch is the next part of the wave; the DAC accepts it
    -- with `ACK`, appends all its points, and is not full with them: its free places are then one
    -- more than the points that the view counts too many. The wave has frames, casts to `i16` are
    -- in range, and `from_bits_truncate` drops the undeclared bits.
    pub Steps-IsAccepted :
        {rate_interval : ℕ → Option ℕ} (x y : Show f)
        → IsOnAir f x
        → Steps f rate_interval x y
        → (points : List DacPoint) × IsAccepted f y points
    unfolding process_command
    Steps-IsAccepted x y h steps =
        let on = Steps-IsOnAir x y steps h in
        let (points, t) = next_batch y on in
        let sized = length-append y.dac.state.buffer points in
        (
          points,
          record {
            takes = t.wave;
            accepted = ap (λ r. r.0) t.replied;
            appended = ap (λ r. r.1.state.buffer) t.replied;
            below = rw t.replied (omega (arith, sized, t.below));
            no_less =
                rw t.replied (omega (arith, sized, t.as_many, on.capacity, on.below, on.ahead));
          },
        )
