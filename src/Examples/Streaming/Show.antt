-- ===== src/Examples/Streaming/Show.antt =====
-- The loop of ether-dream/examples/dac_stream.rs beside the emulated DAC, as steps. The client's view
-- of the DAC is that of its last response, and the DAC may have put out points since.
use ether_dream.Base.{Option, ℕ, suc, ◌+◌, ◌-◌, ◌≤◌, ◌<◌, ◌≡◌, List, ◌++◌, length, some}
use ether_dream.Protocol.{DacPoint, DacResponse, ack}
use ether_dream.Dac.{Dac}
use ether_dream.Dac.Bitflags.{Bitflags}
use ether_dream.Dac.Convert.{update_status}
use ether_dream.Dac.Conversion.{HasKnownFlags}
use ether_dream.Emulator.{Shared, data_points, Output}
use ether_dream.Emulator.Process.{status_of, capacity_of, reply, process_command}
use ether_dream.Emulator.Invariant.{IsSound}
use ether_dream.Emulator.Emit.{done, schedule, emit}
use ether_dream.Examples.Wave.{F32, SineWave, IsWave, ahead, AreWave, take_points}
use ether_dream.Examples.Streaming.{points_to_generate}
use ether_dream.Examples.Streaming.Batch.{IsActive, extended}

-- The emulated DAC, the client's view of it, and the wave.
pub record Show (f : F32) : Type 0 where
  pub dac : Shared
  pub view : Dac
  pub wave : SineWave f

-- The response to a batch, and the DAC after it.
abbrev pub answer : List DacPoint → Shared → DacResponse × Shared
answer points s = process_command (data_points (record { points = points })) s

module _ (f : F32) ⦃b : Bitflags⦄ where
  -- The client sends a batch and takes the response; the emulator begins to wait for an emission,
  -- or puts points out.
  pub data Step (rate_interval : ℕ → Option ℕ) : Show f → Show f → Type 0 where
    tops_up :
        (s : Shared) (view : Dac) (wave wave' : SineWave f) (points : List DacPoint)
        → take_points f (points_to_generate view) wave ≡ some (points, wave')
        → Step rate_interval
            (record { dac = s; view = view; wave = wave })
            (record {
              dac = (answer points s).1;
              view = (update_status view (answer points s).0.dac_status).1;
              wave = wave';
            })
    schedules :
        (now next : ℕ) (s s' : Shared) (view : Dac) (wave : SineWave f)
        → schedule now s ≡ some (next, s')
        → Step rate_interval
            (record { dac = s; view = view; wave = wave })
            (record { dac = s'; view = view; wave = wave })
    emits :
        (now fuel : ℕ) (out : Output) (s s' : Shared) (view : Dac) (wave : SineWave f)
        → emit rate_interval now fuel s ≡ done (out, s')
        → Step rate_interval
            (record { dac = s; view = view; wave = wave })
            (record { dac = s'; view = view; wave = wave })

  pub data Steps (rate_interval : ℕ → Option ℕ) : Show f → Show f → Type 0 where
    stay : (c : Show f) → Steps rate_interval c c
    goes :
        (x y z : Show f)
        → Step rate_interval x y
        → Steps rate_interval y z
        → Steps rate_interval x z

  -- The DAC is sound and takes points, its flags are declared ones, and the client knows its
  -- capacity; the view may count more points than there are, but not as many as the capacity.
  pub record IsOnAir (c : Show f) : Type 0 where
    pub sound : IsSound c.dac
    pub active : IsActive (status_of c.dac).playback
    pub flags : HasKnownFlags (status_of c.dac)
    pub capacity : c.view.buffer_capacity ≡ capacity_of c.dac
    pub ahead : length c.dac.state.buffer ≤ c.view.status.buffer_fullness
    pub below : c.view.status.buffer_fullness < capacity_of c.dac
    pub wave : IsWave f c.wave

  -- The next batch, and what the DAC makes of it.
  pub record IsTaken (c : Show f) (points : List DacPoint) : Type 0 where
    pub as_many : length points ≡ c.view.buffer_capacity - 1 - c.view.status.buffer_fullness
    pub replied :
        reply (data_points (record { points = points })) c.dac ≡ (ack, extended c.dac points)
    pub wave :
        take_points f (points_to_generate c.view) c.wave
        ≡ some (points, ahead f (length points) c.wave)
    pub below : length c.dac.state.buffer + length points < capacity_of c.dac
    pub are : AreWave f c.wave (length points) points

  -- What the DAC answers to the client's next batch.
  pub record IsAccepted (c : Show f) (points : List DacPoint) : Type 0 where
    pub takes :
        take_points f (points_to_generate c.view) c.wave
        ≡ some (points, ahead f (length points) c.wave)
    pub accepted : (answer points c.dac).0.response ≡ ack
    pub appended : (answer points c.dac).1.state.buffer ≡ c.dac.state.buffer ++ points
    pub below : length (answer points c.dac).1.state.buffer < capacity_of c.dac
    pub no_less :
        suc (length (answer points c.dac).1.state.buffer)
          + (c.view.status.buffer_fullness - length c.dac.state.buffer)
        ≡ capacity_of c.dac
