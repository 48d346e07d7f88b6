-- ===== src/Examples/Streaming/Batch.antt =====
-- One `Data` command of ether-dream/examples/dac_stream.rs on the emulated DAC.
use ether_dream.Base.{
  ◌+◌, ◌-◌, ◌%◌, ◌^◌, ◌≤◌, ◌<◌, min, ◌≡◌, ◌≢◌, ◌∙◌, refl, subst, arith, List, ◌++◌, length,
  take-all, le→leb,
}
use ether_dream.Protocol.{DacPoint, ack}
use ether_dream.Dac.{Playback, idle, LightEngine, ready, Dac}
use ether_dream.Emulator.{Shared, data_points}
use ether_dream.Emulator.Process.{
  status_of, capacity_of, with_status, reply_data, extend_buffer, reply,
}
use ether_dream.Emulator.Invariant.{IsSound}
use ether_dream.Examples.Streaming.{points_to_generate}

-- Prepared or playing.
abbrev pub IsActive : Playback → Type 0
IsActive idle = ⊥
IsActive _ = Unit {0}

-- What the subtractions come to while the buffer is not full.
pub points_to_generate_lem :
    (d : Dac)
    → d.status.buffer_fullness < d.buffer_capacity
    → d.buffer_capacity < 2 ^ 16
    → points_to_generate d ≡ d.buffer_capacity - 1 - d.status.buffer_fullness
unfolding points_to_generate
points_to_generate_lem d h small = omega arith

-- The DAC after it has taken all of some points.
abbrev pub extended : Shared → List DacPoint → Shared
extended s points =
    with_status (record s { state = record s.state { buffer = s.state.buffer ++ points } })
      (record (status_of s) { buffer_fullness = length (s.state.buffer ++ points) % 2 ^ 16 })

extend_buffer_fits :
    (s : Shared) (points : List DacPoint)
    → length s.state.buffer + length points ≤ capacity_of s
    → capacity_of s < 2 ^ 16
    → extend_buffer points s ≡ (ack, extended s points)
unfolding extend_buffer
extend_buffer_fits s points fits small =
    let new_len = min (length s.state.buffer + length points) (capacity_of s) in
    rw
      (
        take-all ((new_len + 2 ^ 64 - length s.state.buffer) % 2 ^ 64) points (omega arith),
        le→leb _ _ fits,
      )
      refl

reply_data_active :
    (e : LightEngine) (p : Playback) (s : Shared) (points : List DacPoint)
    → e ≡ ready
    → IsActive p
    → reply_data e p points s ≡ extend_buffer points s
unfolding reply_data
reply_data_active e p s points h active = ground arith

IsActive-idle : (p : Playback) → IsActive p → p ≢ idle
IsActive-idle p active h = subst IsActive h active

pub reply_data_fits :
    (s : Shared) (points : List DacPoint)
    → IsSound s
    → IsActive (status_of s).playback
    → length s.state.buffer + length points ≤ capacity_of s
    → reply (data_points (record { points = points })) s ≡ (ack, extended s points)
unfolding reply
reply_data_fits s points sound active fits =
    reply_data_active _ _ s points (sound.engine (IsActive-idle _ active)) active
    ∙ extend_buffer_fits s points fits sound.capacity
