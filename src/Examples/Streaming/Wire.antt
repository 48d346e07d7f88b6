-- ===== src/Examples/Streaming/Wire.antt =====
-- A round of the loop of ether-dream/examples/dac_stream.rs over the wire, against the emulator.
use ether_dream.Base.{
  ℕ, suc, ◌+◌, ◌-◌, ◌*◌, ◌≤◌, ◌<◌, ◌≡◌, ◌∙◌, sym, ap, subst, arith, List, [], ◌∷◌, ◌++◌, All,
  length, length-append, Option, some, ok,
}
use ether_dream.Io.Bytes.{Bytes}
use ether_dream.Io.Reader.{ReadBytesExt, ReadsLittleEndian}
use ether_dream.Io.Writer.{WriteBytesExt, WritesLittleEndian}
use ether_dream.Io.Slice.{slice_read, vec_write, SliceMut, slice_write}
use ether_dream.Protocol.{DacPoint}
use ether_dream.Protocol.Layout.{IsStatus, IsPoint}
use ether_dream.Protocol.Command.{Data}
use ether_dream.Dac.Bitflags.{Bitflags, DropsUnknownBits}
use ether_dream.Dac.{Addressed}
use ether_dream.Dac.Convert.{status_to_protocol, update_status}
use ether_dream.Dac.Command.RoundTrip.{command_bytes}
use ether_dream.Client.{Stream}
use ether_dream.Client.View.{queued, commands_bytes}
use ether_dream.Client.Receiving.{responses_bytes}
use ether_dream.Emulator.{Shared}
use ether_dream.Emulator.Process.{status_of, capacity_of}
use ether_dream.Emulator.Interpret.{Tcp}
use ether_dream.Emulator.Reading.{length-data_bytes}
use ether_dream.Emulator.Run.{updated}
use ether_dream.Emulator.Exchange.{serve, FitsIn}
use ether_dream.Emulator.Session.{submit-serve}
use ether_dream.Examples.Wave.{F32, SineWave, CastsInRange, take_points, take_points_lem}
use ether_dream.Examples.Streaming.{points_to_generate, submit_points}
use ether_dream.Examples.Streaming.Show.{Show, Step, tops_up, IsOnAir, IsAccepted, answer, stay}
use ether_dream.Examples.Streaming.Filling.{Steps-IsAccepted, next_batch, view_after}
use ether_dream.Examples.Streaming.Sent.{
  filling, batch, queued-filling, filling-queued, handled-filling, queue_points-filling, submitted,
}

module _ (f : F32) where
  abbrev pub both_ends : Stream → Shared → SineWave f → Show f
  both_ends s d wave = record { dac = d; view = s.dac.dac; wave = wave }

  -- Both ends after a round.
  pub record Filled (s : Stream) (d : Shared) (points : List DacPoint) (after : Stream)
      : Type 0 where
    pub requested : after.tcp_stream.sent ≡ s.tcp_stream.sent ++ commands_bytes (batch points)
    pub up_to_date : after.dac ≡ updated s.dac (answer points d).1
    pub appended : (answer points d).1.state.buffer ≡ d.state.buffer ++ points
    pub filled :
        suc (length (answer points d).1.state.buffer)
          + (s.dac.status.buffer_fullness - length d.state.buffer)
        ≡ capacity_of d

  module _ ⦃b : Bitflags⦄ ⦃r : ReadBytesExt Bytes⦄ ⦃v : WriteBytesExt Bytes⦄
      ⦃w : WriteBytesExt SliceMut⦄ (laws : DropsUnknownBits b) (casts : CastsInRange f)
      (reads : ReadsLittleEndian slice_read r) (vec_writes : WritesLittleEndian vec_write v)
      (slice_writes : WritesLittleEndian slice_write w) where
    -- What is known of the batch of a round.
    record IsBatch (s : Stream) (d : Shared) (wave wave' : SineWave f) (points : List DacPoint)
        : Type 0 where
      accepted : IsAccepted f (both_ends s d wave) points
      in_range : All IsPoint points
      fits : suc (length d.state.buffer + length points) ≤ capacity_of d

    round-IsBatch :
        (s : Stream) (d : Shared) (wave wave' : SineWave f) (points : List DacPoint)
        → IsOnAir f (both_ends s d wave)
        → take_points f (points_to_generate s.dac.dac) wave ≡ some (points, wave')
        → IsBatch s d wave wave' points
    round-IsBatch s d wave wave' points on takes =
        let show : Show f = both_ends s d wave in
        let (points', a) =
          Steps-IsAccepted f laws casts {rate_interval = λ rate. some rate} show show on
            (stay show) in
        let (points'', taken, are) =
          take_points_lem f casts (points_to_generate s.dac.dac) wave on.wave in
        let same : points' ≡ points = cc (a.takes) in
        let same' : points'' ≡ points = cc (taken) in
        let accepted : IsAccepted f show points = subst (IsAccepted f show) same a in
        record {
          accepted = accepted;
          in_range = subst (All IsPoint) same' are.in_range;
          fits = omega (
            arith,
            accepted.below,
            ap length accepted.appended,
            length-append d.state.buffer points,
          );
        }

    -- The client's view after the response.
    response-view :
        (c : Show f) (points : List DacPoint) (wave' : SineWave f)
        → IsOnAir f c
        → take_points f (points_to_generate c.view) c.wave ≡ some (points, wave')
        → (update_status c.view (answer points c.dac).0.dac_status).1
          ≡ record c.view { status = status_of (answer points c.dac).1 }
    response-view c points wave' on takes =
        let (points', t) = next_batch f laws casts c on in
        let same : points' ≡ points = cc (t.wave) in
        let (dac, view) = view_after f laws casts c points' on t in
        subst
          (λ ps.
            (update_status c.view (answer ps c.dac).0.dac_status).1
            ≡ record c.view { status = status_of (answer ps c.dac).1 })
          same (view ∙ ap (λ (e : Shared). record c.view { status = status_of e }) (sym dac))

    -- So the round is a step of the relation along which the wave is played.
    round-tops_up :
        {rate_interval : ℕ → Option ℕ} (s after : Stream) (d : Shared) (wave wave' : SineWave f)
        (points : List DacPoint)
        → IsOnAir f (both_ends s d wave)
        → take_points f (points_to_generate s.dac.dac) wave ≡ some (points, wave')
        → after.dac ≡ updated s.dac (answer points d).1
        → Step f rate_interval (both_ends s d wave) (both_ends after (answer points d).1 wave')
    round-tops_up {rate_interval} s after d wave wave' points on takes same =
        subst
          (λ v.
            Step f rate_interval (both_ends s d wave)
              (record { dac = (answer points d).1; view = v; wave = wave' }))
          (response-view _ points wave' on takes ∙ sym (ap (λ (a : Addressed). a.dac) same))
          (tops_up d s.dac.dac wave wave' points takes)

    batch-FitsIn :
        (size : ℕ) (d : Shared) (points : List DacPoint)
        → All IsPoint points
        → length points < capacity_of d
        → capacity_of d < 65536
        → size ≡ 3 + capacity_of d * 18
        → All (FitsIn size) (batch points)
    unfolding command_bytes
    batch-FitsIn size d points range few small sized =
        let c : Data = record { points = points } in
        let long = length-data_bytes c in
        (
          (
            record { points = range; count = omega (arith, few, small) },
            omega (arith, long, few, sized),
          ),
          tt,
        )

    -- A round of the streaming example over the wire. Let the emulated DAC be sound and prepared
    -- or playing, with declared flags, at least two points of capacity, a status in range and a
    -- buffer for commands of the size that `Stream::new` gives it; let the client know its
    -- capacity, and count no fewer points than there are, but fewer than the capacity; no call of
    -- `write` is short, every byte has arrived, and each end reads what the other sends. Then the
    -- round ends in success, having sent the next points of the wave in one `Data` command; the
    -- emulator ends in success; the client holds exactly the DAC's status; and the DAC's buffer
    -- has the points appended, and its free places are one more than the points that the client
    -- had counted too many. So the round is a step of the relation along which the DAC plays the
    -- wave. The wave has frames, casts to `i16` are in range, `from_bits_truncate` drops the
    -- undeclared bits, and the `byteorder` methods are little endian.
    pub submit_points-serve :
        {rate_interval : ℕ → Option ℕ} (s : Stream) (d : Shared) (t : Tcp) (wave wave' : SineWave f)
        (points : List DacPoint)
        → IsOnAir f (both_ends s d wave)
        → IsStatus (status_to_protocol (status_of d))
        → take_points f (points_to_generate s.dac.dac) wave ≡ some (points, wave')
        → length t.bytes ≡ 3 + capacity_of d * 18
        → 2 ≤ capacity_of d
        → s.tcp_stream.outcomes ≡ []
        → t.stream.outcomes ≡ []
        → t.peeks ≡ []
        → t.stream.incoming ≡ commands_bytes (batch points)
        → s.tcp_stream.incoming ≡ responses_bytes ((answer points d).0 ∷ [])
        → (after : Stream) × (served : Tcp) × (submit_points f s wave ≡ some (ok tt, after, wave'))
          × (serve 1 d t ≡ some (ok tt, (answer points d).1, served))
          × Filled s d points after
          × Step f rate_interval (both_ends s d wave) (both_ends after (answer points d).1 wave')
    submit_points-serve s d t wave wave' points on range takes sized big free whole unpeeked
          requests answers =
        let batch_of = round-IsBatch s d wave wave' points on takes in
        let q = filling s points in
        let handles = handled-filling s points d in
        let fit : All (FitsIn (length t.bytes)) (queued q) =
          subst (All (FitsIn (length t.bytes))) (sym (queued-filling s points)) (
            batch-FitsIn (length t.bytes) d points batch_of.in_range (omega (arith, batch_of.fits))
              on.sound.capacity sized) in
        let (after, served, submits, serves, done) =
          submit-serve laws reads vec_writes slice_writes q d t
            (
              record {
                ordered = omega arith;
                inside = omega arith;
                short = omega (arith, batch_of.fits, on.sound.capacity);
              },
              tt,
            )
            fit (omega (arith, sized, big)) free whole unpeeked on.flags
            (λ empty. absurd (filling-queued s points empty)) range
            (rw handles (batch_of.accepted.accepted, tt))
            (requests ∙ ap commands_bytes (sym (queued-filling s points)))
            (answers ∙ ap (λ h. responses_bytes h.0) (sym handles)) in
        let knows = done.up_to_date ∙ ap (λ h. updated s.dac h.1) handles in
        (
          after,
          served,
          submitted f s wave wave' points
              (queue_points-filling f s wave wave' points takes
                (omega (arith, batch_of.fits, on.sound.capacity)))
              submits,
          serves ∙ ap (λ h. some (ok tt, h.1, served)) handles,
          record {
            requested =
                done.requested
                ∙ ap (λ cs. s.tcp_stream.sent ++ commands_bytes cs) (queued-filling s points);
            up_to_date = knows;
            appended = batch_of.accepted.appended;
            filled = batch_of.accepted.no_less;
          },
          round-tops_up s after d wave wave' points on takes knows,
        )
