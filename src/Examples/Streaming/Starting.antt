-- ===== src/Examples/Streaming/Starting.antt =====
-- The first two submissions of ether-dream/examples/dac_stream.rs over the wire, against the emulator:
-- the stream is prepared, and the buffer is filled before playback begins.
use ether_dream.Base.{
  ℕ, suc, ◌+◌, ◌*◌, ◌^◌, ◌≤◌, ◌<◌, ◌≡◌, ◌∙◌, sym, ap, subst, arith, List, [], All, length,
  length-append, some, ok,
}
use ether_dream.Io.Bytes.{Bytes, le_bytes}
use ether_dream.Io.Reader.{ReadBytesExt, ReadsLittleEndian}
use ether_dream.Io.Writer.{WriteBytesExt, WritesLittleEndian}
use ether_dream.Io.Slice.{slice_read, vec_write, SliceMut, slice_write}
use ether_dream.Protocol.Layout.{IsStatus, IsPoint}
use ether_dream.Dac.Bitflags.{DropsUnknownBits, Bitflags}
use ether_dream.Dac.Convert.{status_to_protocol}
use ether_dream.Dac.Command.RoundTrip.{command_bytes}
use ether_dream.Client.View.{commands_bytes, queued}
use ether_dream.Client.Receiving.{responses_bytes}
use ether_dream.Client.Queue.{queue_commands, prepare_stream, begin}
use ether_dream.Client.Submit.{submit}
use ether_dream.Emulator.Interpret.{Tcp}
use ether_dream.Emulator.Exchange.{serve, FitsIn}
use ether_dream.Emulator.Session.{submit-serve, handled}
use ether_dream.Examples.Wave.{CastsInRange, take_points, ahead, F32, SineWave, IsWave}
use ether_dream.Examples.Streaming.{
  points_to_generate, queue_points, submitted_with, submit_prepare, submit_begin, submit_first,
}
use ether_dream.Examples.Streaming.Sent.{filling, queue_points-filling}
use ether_dream.Protocol.{DacPoint, ack}
use ether_dream.Protocol.Command.{Data}
use ether_dream.Protocol.Command.Layout.{begin_bytes}
use ether_dream.Emulator.Reading.{length-data_bytes}
use ether_dream.Dac.{ready, idle, prepared}
use ether_dream.Dac.Conversion.{HasKnownFlags}
use ether_dream.Client.{Stream}
use ether_dream.Examples.Streaming.Batch.{extended}
use ether_dream.Emulator.{Shared}
use ether_dream.Emulator.Process.{status_of, capacity_of, process_command}
use ether_dream.Emulator.Invariant.{IsSound}
use ether_dream.Emulator.Run.{updated}
use ether_dream.Examples.Streaming.Show.{IsOnAir, IsTaken}
use ether_dream.Examples.Streaming.Filling.{next_batch, extended-IsOnAir}
use ether_dream.Examples.Streaming.Wire.{both_ends}
use ether_dream.Examples.Streaming.Opening.{
  readied, begun, begin_accepted, readied-IsOnAir, begun-IsOnAir, preparing, opening_command,
  opening, opening_batch, queued-opening, opening-queued, handled-preparing, handled-opening,
}

module _ (f : F32) ⦃b : Bitflags⦄ ⦃r : ReadBytesExt Bytes⦄ ⦃v : WriteBytesExt Bytes⦄
    ⦃w : WriteBytesExt SliceMut⦄ (laws : DropsUnknownBits b)
    (reads : ReadsLittleEndian slice_read r) (vec_writes : WritesLittleEndian vec_write v)
    (slice_writes : WritesLittleEndian slice_write w) where
  prepared_with :
      (s : Stream) (wave : SineWave f) {after : Stream}
      → submit (preparing s) ≡ some (ok tt, after)
      → submit_prepare f s wave ≡ some (ok tt, after, wave)
  unfolding submit_prepare submitted_with prepare_stream queue_commands
  prepared_with s wave done = ap (submitted_with f wave) done

  -- The preparation over the wire. Let the emulated DAC be sound and idle, with a light engine
  -- that is ready, declared flags, a status in range and a place for a point; let the client know
  -- its capacity, and the emulator's buffer have room for a response; no call of `write` is
  -- short, every byte has arrived, and each end reads what the other sends. Then the first
  -- submission of the streaming example ends in success; the emulator ends in success, its stream
  -- prepared and its buffer empty; and both are on air: the DAC is sound and takes points, and
  -- the client knows its capacity and counts no fewer points than there are, but fewer than the
  -- capacity. The wave has frames, `from_bits_truncate` drops the undeclared bits, and the
  -- `byteorder` methods are little endian.
  pub submit_prepare-IsOnAir :
      (s : Stream) (d : Shared) (t : Tcp) (wave : SineWave f)
      → IsSound d
      → (status_of d).light_engine ≡ ready
      → (status_of d).playback ≡ idle
      → HasKnownFlags (status_of d)
      → IsStatus (status_to_protocol (status_of d))
      → s.dac.buffer_capacity ≡ capacity_of d
      → 0 < capacity_of d
      → IsWave f wave
      → 22 ≤ length t.bytes
      → s.tcp_stream.outcomes ≡ []
      → t.stream.outcomes ≡ []
      → t.peeks ≡ []
      → t.stream.incoming ≡ commands_bytes (queued (preparing s))
      → s.tcp_stream.incoming ≡ responses_bytes (handled (preparing s) d).0
      → (after : Stream) × (served : Tcp) × (submit_prepare f s wave ≡ some (ok tt, after, wave))
        × (serve 1 d t ≡ some (ok tt, readied d, served))
        × IsOnAir f (both_ends f after (readied d) wave)
  unfolding command_bytes le_bytes
  submit_prepare-IsOnAir s d t wave sound engine playback flags range capacity big is_wave room free
        whole unpeeked requests answers =
      let (accepted, becomes) = handled-preparing s d engine playback in
      let (after, served, submits, serves, done) =
        submit-serve laws reads vec_writes slice_writes (preparing s) d t (tt, tt)
          ((tt, omega (arith, room)), tt) room free whole unpeeked flags (λ empty. cc) range
          accepted requests answers in
      (
        after,
        served,
        prepared_with s wave submits,
        serves ∙ ap (λ e. some (ok tt, e, served)) becomes,
        readied-IsOnAir f s after d wave sound engine flags capacity big is_wave
            (done.up_to_date ∙ ap (updated s.dac) becomes),
      )

  first_with :
      (s : Stream) (wave wave' : SineWave f) (points : List DacPoint) (rate : ℕ) {after : Stream}
      → queue_points f s wave ≡ some (filling s points, wave')
      → submit (opening s points rate) ≡ some (ok tt, after)
      → submit_first f rate s wave ≡ some (ok tt, after, wave')
  unfolding submit_first submit_begin submitted_with begin
  first_with s wave wave' points rate queue done =
      ap (submit_begin f rate) queue ∙ ap (submitted_with f wave') done

  opening-FitsIn :
      (size : ℕ) (d : Shared) (points : List DacPoint) (rate : ℕ)
      → All IsPoint points
      → length points < capacity_of d
      → capacity_of d < 65536
      → rate < 2 ^ 32
      → size ≡ 3 + capacity_of d * 18
      → 22 ≤ size
      → All (FitsIn size) (opening_batch points rate)
  unfolding command_bytes begin_bytes le_bytes
  opening-FitsIn size d points rate range few small slow sized room =
      let c : Data = record { points = points } in
      let long = length-data_bytes c in
      (
        (
          record { points = range; count = omega (arith, few, small) },
          omega (arith, long, few, sized),
        ),
        ((record { low_water_mark = omega arith; point_rate = slow }, omega (arith, room)), tt),
      )

  -- The batch that the client takes from the wave.
  taken :
      (casts : CastsInRange f) (s : Stream) (d : Shared) (wave wave' : SineWave f)
      (points : List DacPoint)
      → IsOnAir f (both_ends f s d wave)
      → take_points f (points_to_generate s.dac.dac) wave ≡ some (points, wave')
      → IsTaken f (both_ends f s d wave) points × (ahead f (length points) wave ≡ wave')
  taken casts s d wave wave' points on takes =
      let (points', t) = next_batch f laws casts (both_ends f s d wave) on in
      let same : points' ≡ points = cc (t.wave) in
      let moved : ahead f (length points') wave ≡ wave' = cc (t.wave) in
      (
        subst (IsTaken f (both_ends f s d wave)) same t,
        ap (λ ps. ahead f (length ps) wave) (sym same) ∙ moved,
      )

  -- What the DAC makes of the batch and of the command to begin.
  opens :
      (s : Stream) (d : Shared) (wave : SineWave f) (points : List DacPoint) (rate : ℕ)
      → IsOnAir f (both_ends f s d wave)
      → IsTaken f (both_ends f s d wave) points
      → (status_of d).light_engine ≡ ready
      → (status_of d).playback ≡ prepared
      → 0 < length points
      → All (λ r. r.response ≡ ack) (handled (opening s points rate) d).0
        × ((handled (opening s points rate) d).1 ≡ begun rate (extended d points))
  unfolding process_command
  opens s d wave points rate on t engine waiting some_points =
      handled-opening s d points rate (ap (λ r. r.0) t.replied) (ap (λ r. r.1) t.replied) (
        begin_accepted (extended d points) (opening_command rate) engine waiting
          (omega (arith, some_points, length-append d.state.buffer points)))

  -- The start of playback over the wire. Let the emulated DAC be prepared and on air with the
  -- client, its status in range, and its buffer for commands of the size that `Stream::new` gives
  -- it; let the client count at least two places free, and the point rate be a `u32`; no call of
  -- `write` is short, every byte has arrived, and each end reads what the other sends. Then the
  -- second submission of the streaming example, the first points of the wave and the command to
  -- begin, ends in success; the emulator ends in success, having appended the points and begun to
  -- play at that rate; and both are on air. To be on air is to be sound and prepared or playing,
  -- with declared flags, and known to the client by its capacity and a count of points that is
  -- not too low and leaves a place free. The wave has frames, casts to `i16` are in range,
  -- `from_bits_truncate` drops the undeclared bits, and the `byteorder` methods are little
  -- endian.
  pub submit_first-IsOnAir :
      (casts : CastsInRange f) (s : Stream) (d : Shared) (t : Tcp) (wave wave' : SineWave f)
      (points : List DacPoint) (rate : ℕ)
      → IsOnAir f (both_ends f s d wave)
      → (status_of d).playback ≡ prepared
      → suc s.dac.status.buffer_fullness < capacity_of d
      → IsStatus (status_to_protocol (status_of d))
      → take_points f (points_to_generate s.dac.dac) wave ≡ some (points, wave')
      → rate < 2 ^ 32
      → length t.bytes ≡ 3 + capacity_of d * 18
      → s.tcp_stream.outcomes ≡ []
      → t.stream.outcomes ≡ []
      → t.peeks ≡ []
      → t.stream.incoming ≡ commands_bytes (queued (opening s points rate))
      → s.tcp_stream.incoming ≡ responses_bytes (handled (opening s points rate) d).0
      → (after : Stream) × (served : Tcp) × (submit_first f rate s wave
          ≡ some (ok tt, after, wave'))
        × (serve 2 d t ≡ some (ok tt, begun rate (extended d points), served))
        × IsOnAir f (both_ends f after (begun rate (extended d points)) wave')
  submit_first-IsOnAir casts s d t wave wave' points rate on waiting empty_places range takes slow
        sized free whole unpeeked requests answers =
      let (t', moved) = taken casts s d wave wave' points on takes in
      let engine : (status_of d).light_engine ≡ ready = on.sound.engine (λ stopped. cc) in
      let many : 0 < length points = omega (arith, t'.as_many, empty_places, on.capacity) in
      let few : length points < capacity_of d = omega (arith, t'.below) in
      let (accepted, becomes) = opens s d wave points rate on t' engine waiting many in
      let fit : All (FitsIn (length t.bytes)) (queued (opening s points rate)) =
        subst (All (FitsIn (length t.bytes))) (sym (queued-opening s points rate)) (
          opening-FitsIn (length t.bytes) d points rate t'.are.in_range few on.sound.capacity slow
            sized (omega (arith, sized, empty_places))) in
      let (after, served, submits, serves, done) =
        submit-serve laws reads vec_writes slice_writes (opening s points rate) d t
          (
            record {
              ordered = omega arith;
              inside = omega arith;
              short = omega (arith, few, on.sound.capacity);
            },
            (tt, tt),
          )
          fit (omega (arith, sized, empty_places)) free whole unpeeked on.flags
          (λ empty. absurd (opening-queued s points rate empty)) range accepted requests answers in
      let filled = extended-IsOnAir f laws casts (both_ends f s d wave) points on t' in
      (
        after,
        served,
        first_with s wave wave' points rate
            (queue_points-filling f s wave wave' points takes
              (omega (arith, few, on.sound.capacity)))
            submits,
        serves ∙ ap (λ e. some (ok tt, e, served)) becomes,
        begun-IsOnAir f s after (extended d points) rate wave'
            (subst
              (λ u. IsOnAir f (record {
                dac = extended d points;
                view = record s.dac.dac { status = status_of (extended d points) };
                wave = u;
              }))
              moved filled)
            engine (done.up_to_date ∙ ap (updated s.dac) becomes),
      )
