-- ===== src/Examples/Streaming/Opening.antt =====
-- The first two submissions of ether-dream/examples/dac_stream.rs: what is queued, and what the emulated
-- DAC makes of it.
use ether_dream.Base.{
  ℕ, ◌-◌, ◌<◌, ◌≡◌, ◌≢◌, refl, sym, ap, subst, arith, List, [], ◌∷◌, map, All, length, take-all,
  none,
}
use ether_dream.Protocol.{DacPoint, ack}
use ether_dream.Protocol.Command.{PrepareStream, Begin}
use ether_dream.Dac.{LightEngine, ready, Playback, idle, prepared, playing}
use ether_dream.Dac.Conversion.{HasKnownFlags}
use ether_dream.Dac.Command.{Command}
use ether_dream.Client.{Stream, CommandQueue, QueuedCommand}
use ether_dream.Client.View.{queued}
use ether_dream.Emulator.Session.{handled}
use ether_dream.Examples.Streaming.Batch.{extended}
use ether_dream.Emulator.{Shared, known}
use ether_dream.Emulator.Process.{
  status_of, capacity_of, with_status, process_command, process_interpreted_command, reply,
  reply_prepare, reply_begin, reply_begin_buffered,
}
use ether_dream.Emulator.Invariant.{IsSound}
use ether_dream.Emulator.Wire.{emulated}
use ether_dream.Emulator.Run.{process_all, updated}
use ether_dream.Dac.Bitflags.{Bitflags}
use ether_dream.Examples.Wave.{F32, SineWave, IsWave}
use ether_dream.Examples.Streaming.Show.{answer, IsOnAir}
use ether_dream.Examples.Streaming.Wire.{both_ends}

-- The DAC once a stream is prepared.
abbrev pub readied : Shared → Shared
readied d =
    record (with_status d
      (record (status_of d) { playback = prepared; point_count = 0; buffer_fullness = 0 })) {
        state = record { next_point_emission = none; buffer = [] };
      }

-- The DAC once playback has begun.
abbrev pub begun : ℕ → Shared → Shared
begun rate d = with_status d (record (status_of d) { playback = playing; point_rate = rate })

pub prepare_accepted :
    (d : Shared)
    → (status_of d).light_engine ≡ ready
    → (status_of d).playback ≡ idle
    → reply (emulated (Command.prepare_stream PrepareStream.prepare_stream)) d ≡ (ack, readied d)
unfolding reply reply_prepare
prepare_accepted d e p = rw (e, p) refl

reply_begin_ready :
    (e : LightEngine) (p : Playback) (rate : ℕ) (d : Shared)
    → e ≡ ready
    → p ≡ prepared
    → 0 < length d.state.buffer
    → reply_begin e p rate d ≡ (ack, begun rate d)
unfolding reply_begin reply_begin_buffered
reply_begin_ready e p rate d he hp some_points = rw (he, hp) (buffered d.state.buffer some_points)
  where
    buffered :
        (ps : List DacPoint) → 0 < length ps → reply_begin_buffered ps rate d ≡ (ack, begun rate d)
    buffered [] h = absurd (omega (arith, h))
    buffered (pt ∷ ps) h = refl

pub begin_accepted :
    (d : Shared) (c : Begin)
    → (status_of d).light_engine ≡ ready
    → (status_of d).playback ≡ prepared
    → 0 < length d.state.buffer
    → reply (emulated (Command.begin c)) d ≡ (ack, begun c.point_rate d)
unfolding reply
begin_accepted d c e p some_points =
    reply_begin_ready (status_of d).light_engine (status_of d).playback c.point_rate d e p
      some_points

module _ (f : F32) ⦃b : Bitflags⦄ where
  pub readied-IsOnAir :
      (s after : Stream) (d : Shared) (wave : SineWave f)
      → IsSound d
      → (status_of d).light_engine ≡ ready
      → HasKnownFlags (status_of d)
      → s.dac.buffer_capacity ≡ capacity_of d
      → 0 < capacity_of d
      → IsWave f wave
      → after.dac ≡ updated s.dac (readied d)
      → IsOnAir f (both_ends f after (readied d) wave)
  readied-IsOnAir s after d wave sound engine flags capacity big is_wave same = record {
    sound = record {
      capacity = sound.capacity;
      bounded = omega arith;
      counted = refl;
      engine = λ moving. engine;
    };
    active = tt;
    flags = record {
      light_engine_flags = flags.light_engine_flags;
      playback_flags = flags.playback_flags;
      data_source = flags.data_source;
    };
    capacity = rw same capacity;
    ahead = rw same (omega arith);
    below = rw same big;
    wave = is_wave;
  }

  pub begun-IsOnAir :
      (s after : Stream) (d : Shared) (rate : ℕ) (wave : SineWave f)
      → IsOnAir f
          (record { dac = d; view = record s.dac.dac { status = status_of d }; wave = wave })
      → (status_of d).light_engine ≡ ready
      → after.dac ≡ updated s.dac (begun rate d)
      → IsOnAir f (both_ends f after (begun rate d) wave)
  begun-IsOnAir s after d rate wave on engine same = record {
    sound = record {
      capacity = on.sound.capacity;
      bounded = on.sound.bounded;
      counted = on.sound.counted;
      engine = λ moving. engine;
    };
    active = tt;
    flags = record {
      light_engine_flags = on.flags.light_engine_flags;
      playback_flags = on.flags.playback_flags;
      data_source = on.flags.data_source;
    };
    capacity = rw same on.capacity;
    ahead = rw same on.ahead;
    below = rw same on.below;
    wave = on.wave;
  }

-- The queue with the first command of the program.
abbrev pub preparing : Stream → CommandQueue
preparing s = record {
  stream = record s { command_buffer = QueuedCommand.prepare_stream ∷ []; point_buffer = [] };
}

-- The queue of the second submission: the points, and the command to begin.
abbrev pub opening_command : ℕ → Begin
opening_command rate = record { low_water_mark = 0; point_rate = rate }

abbrev pub opening : Stream → List DacPoint → ℕ → CommandQueue
opening s points rate = record {
  stream = record s {
    command_buffer =
        QueuedCommand.data_range (record { first = 0; past = length points })
        ∷ QueuedCommand.begin (opening_command rate)
        ∷ [];
    point_buffer = points;
  };
}

abbrev pub opening_batch : List DacPoint → ℕ → List Command
opening_batch points rate =
    Command.data_points (record { points = points }) ∷ Command.begin (opening_command rate) ∷ []

pub queued-opening :
    (s : Stream) (points : List DacPoint) (rate : ℕ)
    → queued (opening s points rate) ≡ opening_batch points rate
queued-opening s points rate =
    ap (λ ps. opening_batch ps rate) (take-all (length points - 0) points (omega arith))

pub opening-queued :
    (s : Stream) (points : List DacPoint) (rate : ℕ) → queued (opening s points rate) ≢ []
opening-queued s points rate h = cc

pub handled-preparing :
    (s : Stream) (d : Shared)
    → (status_of d).light_engine ≡ ready
    → (status_of d).playback ≡ idle
    → All (λ r. r.response ≡ ack) (handled (preparing s) d).0
      × ((handled (preparing s) d).1 ≡ readied d)
unfolding process_all process_interpreted_command process_command
handled-preparing s d e p =
    let replied = prepare_accepted d e p in ((ap (λ r. r.0) replied, tt), ap (λ r. r.1) replied)

pub handled-opening :
    (s : Stream) (d : Shared) (points : List DacPoint) (rate : ℕ)
    → (answer points d).0.response ≡ ack
    → (answer points d).1 ≡ extended d points
    → reply (emulated (Command.begin (opening_command rate))) (extended d points)
      ≡ (ack, begun rate (extended d points))
    → All (λ r. r.response ≡ ack) (handled (opening s points rate) d).0
      × ((handled (opening s points rate) d).1 ≡ begun rate (extended d points))
unfolding process_all process_interpreted_command process_command
handled-opening s d points rate accepted after begins =
    let replied : reply (emulated (Command.begin (opening_command rate))) (answer points d).1
        ≡ (ack, begun rate (extended d points)) =
      rw after begins in
    subst
      (λ cs.
        All (λ r. r.response ≡ ack) (process_all (map (λ c. known (emulated c)) cs) d).0
        × ((process_all (map (λ c. known (emulated c)) cs) d).1 ≡ begun rate (extended d points)))
      (sym (queued-opening s points rate))
      ((accepted, (ap (λ r. r.0) replied, tt)), ap (λ r. r.1) replied)
