-- ===== src/Emulator/Next/Bounds.antt =====
-- The numbers of the DAC's status in `next_points` of dac-emulator/src/stream.rs, and the point rate at
-- which it panics.
use ether_dream.Base.{
  ℕ, ◌≡◌, refl, sym, subst, arith, List, [], ◌∷◌, inl, inr, Option, none, some, Result, ok, err,
}
use ether_dream.Io.{IoError}
use ether_dream.Io.Bytes.{Bytes}
use ether_dream.Io.Reader.{ReadBytesExt, ReadsLittleEndian}
use ether_dream.Io.Writer.{WriteBytesExt, WritesLittleEndian}
use ether_dream.Io.Slice.{slice_read, SliceMut, slice_write}
use ether_dream.Protocol.Layout.{IsStatus}
use ether_dream.Dac.Convert.{status_to_protocol}
use ether_dream.Client.Tcp.{TcpStream}
use ether_dream.Emulator.{Shared, InterpretedCommand, known, unknown, Output}
use ether_dream.Emulator.Process.{status_of, process_interpreted_command}
use ether_dream.Emulator.Emit.{
  Ending, done, panicked, out_of_fuel, Progress, finish, schedule, emit,
}
use ether_dream.Emulator.Emit.Due.{schedule_lem, emit_done_lem, emit_done-IsDue}
use ether_dream.Emulator.Rate.{F64, DividesAsIeee, rate_interval, rate_interval-none}
use ether_dream.Emulator.Range.{InRange, IsStatus-InRange, reply-InRange}
use ether_dream.Emulator.Interpret.{Tcp, Interpretation, read_from_tcp_stream}
use ether_dream.Emulator.Interpret.Buffer.{IsRoomy, HasBuffer}
use ether_dream.Emulator.Interpret.Carried.{IsCarried}
use ether_dream.Emulator.Interpret.Total.{Settles, read_from_tcp_stream-Settles}
use ether_dream.Emulator.Next.{
  reading, processed_before, processed_after, Round, command, emission, panics, Left, poll_emission,
  given_up, emitted, emit_now, scheduled, processed, emission_round, continue_with, next_points,
}
use ether_dream.Emulator.Next.Total.{Handles, Answers, command-Answers, next_points-panics}

abbrev Bounded : Shared → Type 0
Bounded s = InRange (status_of s)

process-Bounded :
    (c : InterpretedCommand) (s : Shared)
    → IsCarried c
    → Bounded s
    → Bounded (process_interpreted_command c s).1
unfolding process_interpreted_command
process-Bounded (known c) s (d, same, inside) h = rw (← same) (reply-InRange d s inside h)
process-Bounded (unknown b) s byte h = h

Handles-Bounded : (s s' : Shared) → Handles s s' → Bounded s → Bounded s'
Handles-Bounded s s' (inl same) h = rw same h
Handles-Bounded s s' (inr (c, carried, same)) h = rw same (process-Bounded c s carried h)

schedule-Bounded :
    (now next : ℕ) (s s' : Shared) → schedule now s ≡ some (next, s') → Bounded s → Bounded s'
schedule-Bounded now next s s' e h =
    let (plays, same, kept, due) = schedule_lem now next s s' e in rw same h

poll-Bounded : (polled : Option ℕ) (s : Shared) → Bounded s → Bounded (poll_emission polled s)
unfolding poll_emission
poll-Bounded none s h = h
poll-Bounded (some now) s h = set (schedule now s) refl
  where
    set :
        (o : Option (ℕ × Shared))
        → schedule now s ≡ o
        → Bounded (elim o [ none ↦ s | some (_, s') ↦ s' ])
    set none e = h
    set (some (next, s')) e = schedule-Bounded now next s s' e h

finish-Bounded : (s : Shared) (p : Progress) → Bounded s → Bounded (finish s p).1
unfolding finish
finish-Bounded s p h = record {
  protocol = h.protocol;
  light_engine_flags = h.light_engine_flags;
  playback_flags = h.playback_flags;
  source = h.source;
  source_flags = h.source_flags;
  buffer_fullness = omega arith;
  point_rate = h.point_rate;
  point_count = omega arith;
}

module _ (rate_interval : ℕ → Option ℕ) (fuel : ℕ) where
  emit_now-Bounded :
      (now : ℕ) (s : Shared) (t : Tcp)
      → Bounded s
      → Bounded (emit_now rate_interval fuel now s t).shared
  unfolding emit_now emitted
  emit_now-Bounded now s t h = ended (emit rate_interval now fuel s) refl
    where
      ended :
          (o : Ending (Output × Shared))
          → emit rate_interval now fuel s ≡ o
          → Bounded (emitted rate_interval fuel s t o).shared
      ended (done (out, s')) e =
          let due = emit_done-IsDue rate_interval now fuel s e in
          let f = emit_done_lem rate_interval now fuel s due e in
          subst Bounded (sym f.leaves) (finish-Bounded s f.progress h)
      ended panicked e = h
      ended out_of_fuel e = h

  scheduled-Bounded :
      (polled : ℕ) (next : Shared → Tcp → Left) (s : Shared) (t : Tcp)
      → Bounded s
      → ((s' : Shared) → Bounded s' → Bounded (next s' t).shared)
      → Bounded (scheduled next s t (schedule polled s)).shared
  unfolding scheduled
  scheduled-Bounded polled next s t h goes_on = set (schedule polled s) refl
    where
      set :
          (o : Option (ℕ × Shared)) → schedule polled s ≡ o → Bounded (scheduled next s t o).shared
      set none e = h
      set (some (due, s')) e = goes_on s' (schedule-Bounded polled due s s' e h)

  processed-Bounded :
      {size : ℕ} (next : Shared → Tcp → Left) (bytes : Bytes) (s : Shared) (t : Tcp)
      (o : Interpretation)
      → Settles size o
      → Bounded s
      → ((s' : Shared) (t' : Tcp) → Bounded s' → Bounded (next s' t').shared)
      → Bounded (processed next bytes s t o).shared
  unfolding processed
  processed-Bounded next bytes s t o (ok c, t', same, (h', carried)) h goes_on =
      rw same (goes_on _ _ (process-Bounded c s carried h))
  processed-Bounded next bytes s t o (err e, t', same, (h', carried)) h goes_on = rw same h

  module _ ⦃r : ReadBytesExt Bytes⦄ (reads : ReadsLittleEndian slice_read r) where
    emission_round-Bounded :
        {size : ℕ} (polled now : ℕ) (p : ether_dream.Emulator.Next.Progress) (s : Shared) (t : Tcp)
        → IsRoomy size
        → HasBuffer size t
        → Bounded s
        → Bounded (emission_round rate_interval fuel polled now p s t).shared
    unfolding emission_round
    emission_round-Bounded polled now (reading k bytes) s t room buf h =
        scheduled-Bounded polled (λ s' t'. emit_now rate_interval fuel now s' (given_up k bytes t'))
          s t h (λ s' h'. emit_now-Bounded now s' (given_up k bytes t) h')
    emission_round-Bounded polled now (processed_before bytes) s t room buf h =
        processed-Bounded
          (λ s' t'. scheduled (emit_now rate_interval fuel now) s' t' (schedule polled s')) bytes s
          t (read_from_tcp_stream t) (read_from_tcp_stream-Settles reads t room buf) h
          (λ s' t' h'.
            scheduled-Bounded polled (emit_now rate_interval fuel now) s' t' h'
              (λ s'' h''. emit_now-Bounded now s'' t' h''))
    emission_round-Bounded polled now (processed_after bytes) s t room buf h =
        scheduled-Bounded polled
          (λ s' t'.
            processed (emit_now rate_interval fuel now) bytes s' t' (read_from_tcp_stream t'))
          s t h
          (λ s' h'.
            processed-Bounded (emit_now rate_interval fuel now) bytes s' t (read_from_tcp_stream t)
              (read_from_tcp_stream-Settles reads t room buf) h'
              (λ s'' t'' h''. emit_now-Bounded now s'' t'' h''))

    module _ ⦃w : WriteBytesExt SliceMut⦄ (writes : WritesLittleEndian slice_write w)
        (shutdown : TcpStream → TcpStream) where
      continue_with-Bounded :
          {size : ℕ} (next : Shared → Tcp → Left) (s : Shared) (t : Tcp)
          (o : Option (Result IoError (Unit {0}) × Shared × Tcp))
          → Answers size s o
          → Bounded s
          → ((s' : Shared) (t' : Tcp)
              → HasBuffer size t'
              → Bounded s'
              → Bounded (next s' t').shared)
          → Bounded (continue_with shutdown next s t o).shared
      continue_with-Bounded next s t o (ok _, s', t', same, buf, handled) h goes_on =
          rw same (goes_on s' t' buf (Handles-Bounded s s' handled h))
      continue_with-Bounded next s t o (err e, s', t', same, buf, handled) h goes_on =
          rw same (Handles-Bounded s s' handled h)

      pub next_points-Bounded :
          {size : ℕ} (rounds : List Round) (s : Shared) (t : Tcp)
          → IsRoomy size
          → HasBuffer size t
          → Bounded s
          → Bounded (next_points rate_interval fuel shutdown rounds s t).shared
      unfolding next_points
      next_points-Bounded [] s t room buf h = h
      next_points-Bounded (emission polled now p ∷ rounds) s t room buf h =
          emission_round-Bounded polled now p s t room buf h
      next_points-Bounded (command polled ∷ rounds) s t room buf h =
          let s' = poll_emission polled s in
          continue_with-Bounded (next_points rate_interval fuel shutdown rounds) s' t _
            (command-Answers writes reads s' t room buf) (poll-Bounded polled s h)
            (λ s'' t' buf' h'. next_points-Bounded rounds s'' t' room buf' h')

module _ (f : F64) (ieee : DividesAsIeee f) (fuel : ℕ) ⦃r : ReadBytesExt Bytes⦄
    ⦃w : WriteBytesExt SliceMut⦄ (writes : WritesLittleEndian slice_write w)
    (reads : ReadsLittleEndian slice_read r) (shutdown : TcpStream → TcpStream) where
  -- With a buffer that has room for a `Data` command of 65535 points, it and the stream made of
  -- bytes, and the numbers of the DAC's status in the ranges of their machine types: whatever
  -- comes in, however `peek` and `write` fare, and along every schedule, if `next_points` panics
  -- then the point rate of the DAC is 0 in the state that it leaves. `f64` and the casts from it
  -- are as IEEE 754 and the language document them, and the `byteorder` methods are little
  -- endian.
  pub next_points-zero_rate :
      {size : ℕ} (rounds : List Round) (s : Shared) (t : Tcp)
      → IsRoomy size
      → HasBuffer size t
      → IsStatus (status_to_protocol (status_of s))
      → let left = next_points (rate_interval f) fuel shutdown rounds s t in
        left.outcome ≡ panics → (status_of left.shared).point_rate ≡ 0
  next_points-zero_rate rounds s t room buf h stops =
      let kept =
        next_points-Bounded (rate_interval f) fuel reads writes shutdown rounds s t room buf
          (IsStatus-InRange _ h) in
      rate_interval-none f ieee _ kept.point_rate
        (next_points-panics writes reads (rate_interval f) fuel shutdown rounds s t room buf stops)
