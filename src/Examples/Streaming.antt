-- ===== src/Examples/Streaming.antt =====
-- `main` of ether-dream/examples/dac_stream.rs, prepare the DAC that is heard first, fill
-- its buffer, begin, and go on filling. What it prints is left out. A panic is `none`.
pub mod Batch
pub mod Show
pub mod Filling
pub mod Sent
pub mod Played
pub mod Wire
pub mod Opening
pub mod Starting
use ether_dream.Base.{
  ℕ, zero, suc, ◌+◌, ◌-◌, ◌/◌, ◌%◌, ◌^◌, List, Option, none, some, Result, ok, err,
}
use ether_dream.Io.{IoError}
use ether_dream.Io.Bytes.{Bytes}
use ether_dream.Io.Reader.{ReadBytesExt}
use ether_dream.Io.Writer.{WriteBytesExt}
use ether_dream.Protocol.{DacPoint, DacBroadcast}
use ether_dream.Dac.{Dac}
use ether_dream.Dac.Bitflags.{Bitflags}
use ether_dream.Client.{Stream, CommandQueue, CommunicationError}
use ether_dream.Client.Queue.{queue_commands, prepare_stream, begin, queue_data, stop}
use ether_dream.Client.Submit.{submit}
use ether_dream.Client.Tcp.{TcpStream}
use ether_dream.Client.Connect.{connect}
use ether_dream.Client.Discovery.{RecvDacBroadcasts, recv_dac_broadcasts, next_broadcast}
use ether_dream.Examples.Wave.{F32, SineWave, take_points}

-- How the program ends: `stopped` at its last line. `out_of_fuel` is no outcome of the program.
pub data Ended : Type 0 where
  stopped : Stream → Ended
  panicked : Ended
  out_of_fuel : Ended

-- Both subtractions are on a `usize` of 64 bits, and wrap as in a release build.
unfoldable pub points_to_generate : Dac → ℕ
points_to_generate dac =
    ((dac.buffer_capacity + 2 ^ 64 - 1) % 2 ^ 64 + 2 ^ 64 - dac.status.buffer_fullness) % 2 ^ 64

module _ (f : F32) where
  queued_with : SineWave f → Option CommandQueue → Option (CommandQueue × SineWave f)
  queued_with wave none = none
  queued_with wave (some queue) = some (queue, wave)

  queue_taken : Stream → Option (List DacPoint × SineWave f) → Option (CommandQueue × SineWave f)
  unfolding queued_with
  queue_taken stream none = none
  queue_taken stream (some (points, wave)) =
      queued_with wave (queue_data (queue_commands stream) points)

  -- `data(sine_wave.by_ref().take(n_points))` on a new queue, with as many points as the DAC takes.
  unfoldable pub queue_points : Stream → SineWave f → Option (CommandQueue × SineWave f)
  unfolding queue_taken
  queue_points stream sine_wave =
      queue_taken stream (take_points f (points_to_generate stream.dac.dac) sine_wave)

  -- The rates, and the wave that starts at 0: `points_per_frame` is computed in `f32`.
  unfoldable pub points_per_second : Stream → ℕ
  points_per_second stream = stream.dac.max_point_rate / 32

  unfoldable pub new_wave : F32.F f → Stream → SineWave f
  unfolding points_per_second
  new_wave frames_per_second stream = record {
    point = 0;
    points_per_frame = f.to_u16 (f.over (f.of_u32 (points_per_second stream)) frames_per_second);
    frames_per_second = frames_per_second;
  }

  module _ ⦃b : Bitflags⦄ ⦃r : ReadBytesExt Bytes⦄ ⦃w : WriteBytesExt Bytes⦄ where
    abbrev Submitted : Type 0
    Submitted = Option (Result CommunicationError (Unit {0}) × Stream × SineWave f)

    submitted_with : SineWave f → Option (Result CommunicationError (Unit {0}) × Stream) → Submitted
    submitted_with wave none = none
    submitted_with wave (some (result, stream)) = some (result, stream, wave)

    unfoldable pub submit_prepare : Stream → SineWave f → Submitted
    unfolding submitted_with
    submit_prepare stream wave =
        submitted_with wave (submit (prepare_stream (queue_commands stream)))

    submit_begin : ℕ → Option (CommandQueue × SineWave f) → Submitted
    unfolding submitted_with
    submit_begin rate none = none
    submit_begin rate (some (queue, wave)) = submitted_with wave (submit (begin queue 0 rate))

    -- The first frame, and the command to begin.
    unfoldable pub submit_first : ℕ → Stream → SineWave f → Submitted
    unfolding submit_begin
    submit_first rate stream wave = submit_begin rate (queue_points stream wave)

    submit_queued : Option (CommandQueue × SineWave f) → Submitted
    unfolding submitted_with
    submit_queued none = none
    submit_queued (some (queue, wave)) = submitted_with wave (submit queue)

    -- A round of the loop.
    unfoldable pub submit_points : Stream → SineWave f → Submitted
    unfolding submit_queued
    submit_points stream wave = submit_queued (queue_points stream wave)

    -- `stop().submit().expect(..)`.
    unfoldable pub submit_stop : Stream → Ended
    submit_stop stream = elim (submit (stop (queue_commands stream))) [
      | none ↦ panicked
      | some (err e, stream') ↦ panicked
      | some (ok _, stream') ↦ stopped stream'
    ]

    -- The loop is left at the first error, and the DAC is told to stop.
    unfoldable pub fill_forever : ℕ → Stream → SineWave f → Ended
    fill_forever zero stream wave = out_of_fuel
    fill_forever (suc fuel) stream wave = elim (submit_points stream wave) [
      | none ↦ panicked
      | some (err e, stream', wave') ↦ submit_stop stream'
      | some (ok _, stream', wave') ↦ fill_forever fuel stream' wave'
    ]

    -- An error of the first two submissions is printed, and the program goes on.
    unfoldable pub stream_wave : ℕ → F32.F f → Stream → Ended
    stream_wave fuel frames_per_second stream =
        let rate = points_per_second stream in
        elim (submit_prepare stream (new_wave frames_per_second stream)) [
          | none ↦ panicked
          | some (_, prepared, wave) ↦ elim (submit_first rate prepared wave) [
            | none ↦ panicked
            | some (_, begun, wave') ↦ fill_forever fuel begun wave'
          ]
        ]

    -- What `main` takes from the system: the UDP socket, and the two steps of a TCP connection.
    module _ {U Addr Ip : Type 0} (recv_from : U → Result IoError (Bytes × Addr) × U)
        (ip_of : Addr → Ip) (tcp_connect : Ip × ℕ → Result IoError TcpStream)
        (set_nodelay : TcpStream → Result IoError (Unit {0})) where
      -- `filter_map(Result::ok).next()`: the iterator never ends, so neither does the search without
      -- a broadcast.
      unfoldable pub first_broadcast : ℕ → RecvDacBroadcasts U → Option (DacBroadcast × Addr)
      first_broadcast zero rx = none
      first_broadcast (suc fuel) rx =
          let (result, rx') = next_broadcast recv_from rx in
          elim result [ err e ↦ first_broadcast fuel rx' | ok found ↦ some found ]

      connected_to : ℕ → F32.F f → Result CommunicationError Stream → Ended
      unfolding stream_wave
      connected_to fuel frames_per_second (err e) = panicked
      connected_to fuel frames_per_second (ok stream) = stream_wave fuel frames_per_second stream

      discovered : ℕ → F32.F f → Option (DacBroadcast × Addr) → Ended
      unfolding connected_to
      discovered fuel frames_per_second none = out_of_fuel
      discovered fuel frames_per_second (some (dac_broadcast, source_addr)) =
          connected_to fuel frames_per_second
            (connect set_nodelay tcp_connect dac_broadcast (ip_of source_addr))

      listened : ℕ → F32.F f → Result IoError (RecvDacBroadcasts U) → Ended
      unfolding discovered first_broadcast
      listened fuel frames_per_second (err e) = panicked
      listened fuel frames_per_second (ok rx) =
          discovered fuel frames_per_second (first_broadcast fuel rx)

      -- `main`; the `expect` and the `unwrap` of the start panic on an error.
      unfoldable pub dac_stream : (bind : ℕ → Result IoError U) → ℕ → F32.F f → Ended
      unfolding listened
      dac_stream bind fuel frames_per_second =
          listened fuel frames_per_second (recv_dac_broadcasts bind)
