-- ===== src/Emulator/Next/Serving.antt =====
-- `next_points` answers the commands that have arrived, and then puts out points.
use ether_dream.Base.{
  Nat-cases, ℕ, zero, suc, ◌+◌, ◌*◌, ◌≤◌, ◌<◌, ◌≡◌, ◌∙◌, refl, ap, arith, List, [], ◌∷◌, ◌++◌, map,
  All, length, replicate, inl, inr, Option, none, some, Result, ok, err,
}
use ether_dream.Io.{IoError}
use ether_dream.Io.Bytes.{Bytes}
use ether_dream.Io.Reader.{ReadBytesExt, ReadsLittleEndian}
use ether_dream.Io.Writer.{WriteBytesExt, WritesLittleEndian}
use ether_dream.Io.Slice.{slice_read, SliceMut, slice_write}
use ether_dream.Protocol.{DacPoint, DacResponse}
use ether_dream.Dac.{playing}
use ether_dream.Dac.Command.{Command}
use ether_dream.Client.Tcp.{TcpStream}
use ether_dream.Client.View.{commands_bytes}
use ether_dream.Client.Receiving.{responses_bytes}
use ether_dream.Emulator.{Shared, known, Output}
use ether_dream.Emulator.Process.{status_of}
use ether_dream.Emulator.Emit.{or_now, schedule, done, output_or_underflow, interval_of, emit}
use ether_dream.Emulator.Emission.{Emitted, emit-Emitted}
use ether_dream.Emulator.Interpret.{Tcp, read_command_via_tcp_and_respond}
use ether_dream.Emulator.Run.{process_all}
use ether_dream.Emulator.Wire.{emulated}
use ether_dream.Emulator.Exchange.{serve, FitsIn, serve_lem}
use ether_dream.Emulator.Next.{
  reading, Round, command, emission, returns, Left, poll_emission, given_up, emitted, emit_now,
  scheduled, emission_round, continue_with, next_points,
}

-- The commands that the client has sent, as the emulator processes them.
abbrev pub after_commands : List Command → Shared → List DacResponse × Shared
after_commands cs s = process_all (map (λ c. known (emulated c)) cs) s

-- The state once the emission was polled.
abbrev pub polled_at : ℕ → Shared → Shared
polled_at polled s = record s {
  state = record s.state { next_point_emission = some (or_now s.state.next_point_emission polled) };
}

module _ (rate_interval : ℕ → Option ℕ) (fuel : ℕ) ⦃r : ReadBytesExt Bytes⦄
    ⦃w : WriteBytesExt SliceMut⦄ (shutdown : TcpStream → TcpStream) where
  abbrev next : List Round → Shared → Tcp → Left
  next = next_points rate_interval fuel shutdown

  -- What `serve` does after a round.
  abbrev serve_rest :
      ℕ
      → Option (Result IoError (Unit {0}) × Shared × Tcp)
      → Option (Result IoError (Unit {0}) × Shared × Tcp)
  serve_rest rounds o = elim o [
    | none ↦ none
    | some (err e, s', t') ↦ some (err e, s', t')
    | some (ok _, s', t') ↦ serve rounds s' t'
  ]

  -- Rounds in which the command completes before the emission is polled.
  pub next_points-serve :
      (n : ℕ) (rounds : List Round) (s : Shared) (t : Tcp) (s' : Shared) (t' : Tcp)
      → serve n s t ≡ some (ok tt, s', t')
      → next (replicate n (command none) ++ rounds) s t ≡ next rounds s' t'
  unfolding serve next_points poll_emission
  next_points-serve zero rounds s t s' t' h = cc
  next_points-serve (suc n) rounds s t s' t' h =
      served (read_command_via_tcp_and_respond s t) h (next_points-serve n rounds)
    where
      served :
          (o : Option (Result IoError (Unit {0}) × Shared × Tcp))
          → serve_rest n o ≡ some (ok tt, s', t')
          → ((s'' : Shared) (t'' : Tcp) (u : Shared) (v : Tcp)
              → serve n s'' t'' ≡ some (ok tt, u, v)
              → next (replicate n (command none) ++ rounds) s'' t'' ≡ next rounds u v)
          → continue_with shutdown (next (replicate n (command none) ++ rounds)) s t o
            ≡ next rounds s' t'
      served none k ih = cc
      served (some (err e, s'', t'')) k ih = cc
      served (some (ok _, s'', t'')) k ih = ih s'' t'' s' t' k

  -- An emission that was polled while playback goes on.
  schedule-playing :
      (polled : ℕ) (s : Shared)
      → (status_of s).playback ≡ playing
      → schedule polled s ≡ some (or_now s.state.next_point_emission polled, polled_at polled s)
  unfolding schedule
  schedule-playing polled s plays = rw plays refl

  emit_now-done :
      (now : ℕ) (s : Shared) (t : Tcp) {out : Output} {s' : Shared}
      → emit rate_interval now fuel s ≡ done (out, s')
      → emit_now rate_interval fuel now s t ≡ record { outcome = returns out; shared = s'; tcp = t }
  unfolding emit_now emitted
  emit_now-done now s t h = rw h refl

  pub emission_round-done :
      (polled now k : ℕ) (bytes : Bytes) (s : Shared) (t : Tcp) {out : Output} {s' : Shared}
      → (status_of s).playback ≡ playing
      → emit rate_interval now fuel (polled_at polled s) ≡ done (out, s')
      → emission_round rate_interval fuel polled now (reading k bytes) s t
        ≡ record { outcome = returns out; shared = s'; tcp = given_up k bytes t }
  unfolding emission_round scheduled
  emission_round-done polled now k bytes s t plays h =
      ap (scheduled (λ s' t'. emit_now rate_interval fuel now s' (given_up k bytes t')) s t)
        (schedule-playing polled s plays)
      ∙ emit_now-done now (polled_at polled s) (given_up k bytes t) h

  -- At least one point is put out once the moment lies in the past.
  pub Emitted-some :
      (now next interval : ℕ) (s : Shared) (points : List DacPoint) (after : Shared)
      → Emitted now interval next s points after
      → next < now
      → 0 < length s.state.buffer
      → 0 < length points
  Emitted-some now next interval s points after h past some_points = elim (Nat-cases h.rounds) [
    | inl none_yet ↦ absurd (omega (arith, h.caught_up, past, ap (λ k. k * interval) none_yet))
    | inr more ↦ omega (arith, h.as_many, more, some_points)
  ]

  pub output-ok :
      (points : List DacPoint) → 0 < length points → output_or_underflow points ≡ ok points
  output-ok [] h = absurd (omega arith)
  output-ok (pt ∷ points) h = refl

  -- All commands answered, and the first points of the buffer returned.
  pub record Serves (cs : List Command) (s : Shared) (t : Tcp) (left : Left) : Type 0 where
    pub points : List DacPoint
    pub outcome : left.outcome ≡ returns (ok points)
    pub some_points : 0 < length points
    pub in_order : points ++ left.shared.state.buffer ≡ (after_commands cs s).1.state.buffer
    pub answered : left.tcp.stream.sent ≡ t.stream.sent ++ responses_bytes (after_commands cs s).0
    pub unread : left.tcp.stream.incoming ≡ []

  -- If the stream holds the encodings of commands whose fields are in range and which fit the
  -- buffer, the buffer has room for a response, no call of `write` is short, every byte has
  -- arrived, and after these commands the DAC plays, at a positive interval, and has points: when
  -- each command completes before the emission is polled, and then the emission completes after
  -- its moment, with fuel for the nanoseconds in between and no further command begun,
  -- `next_points` returns. It has answered every command, and returns at least one point, the
  -- first ones of the buffer in order. The `byteorder` methods are little endian.
  pub next_points-Serves :
      (writes : WritesLittleEndian slice_write w) (reads : ReadsLittleEndian slice_read r)
      (cs : List Command) (s : Shared) (t : Tcp) (polled now : ℕ) (bytes : Bytes)
      (rounds : List Round) {interval : ℕ}
      → 22 ≤ length t.bytes
      → All (FitsIn (length t.bytes)) cs
      → t.peeks ≡ []
      → t.stream.outcomes ≡ []
      → t.stream.incoming ≡ commands_bytes cs
      → let s' = (after_commands cs s).1 in
        (status_of s').playback ≡ playing
        → 0 < length s'.state.buffer
        → interval_of rate_interval s' ≡ some interval
        → 0 < interval
        → or_now s'.state.next_point_emission polled < now
        → now ≤ or_now s'.state.next_point_emission polled + fuel
        → Serves cs s t (
            next
              (replicate (length cs) (command none)
                ++ emission polled now (reading 0 bytes) ∷ rounds)
              s
              t)
  unfolding next_points
  next_points-Serves writes reads cs s t polled now bytes rounds {interval} room fit free whole e
        plays has timed pos past enough =
      let s' = (after_commands cs s).1 in
      let due = or_now s'.state.next_point_emission polled in
      let (t', serves, l) =
        serve_lem writes reads (length t.bytes) cs s t refl room fit free whole e in
      let (points, after, ends, h) =
        emit-Emitted rate_interval now fuel due (polled_at polled s') refl timed pos enough in
      let some_points =
        Emitted-some now due interval (polled_at polled s') points after h past has in
      let run =
        next_points-serve (length cs) (emission polled now (reading 0 bytes) ∷ rounds) s t s' t'
          serves
        ∙ emission_round-done polled now 0 bytes s' t' plays ends in
      record {
        points = points;
        outcome = ap (λ (x : Left). x.outcome) run ∙ ap returns (output-ok points some_points);
        some_points = some_points;
        in_order = ap (λ (x : Left). points ++ x.shared.state.buffer) run ∙ h.in_order;
        answered =
            ap (λ (x : Left). x.tcp.stream.sent) run ∙ ap (λ (x : TcpStream). x.sent) l.stream;
        unread =
            ap (λ (x : Left). x.tcp.stream.incoming) run
            ∙ ap (λ (x : TcpStream). x.incoming) l.stream;
      }
