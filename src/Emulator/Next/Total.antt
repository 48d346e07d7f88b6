-- ===== src/Emulator/Next/Total.antt =====
-- What `next_points` of dac-emulator/src/stream.rs panics at: with a buffer that has room for the largest
-- `Data` command it is the interval of the point rate.
use ether_dream.Base.{
  ℕ, ◌≡◌, ◌∙◌, refl, ap, arith, List, [], ◌∷◌, Option, none, some, Result, ok, err, ◌⊎◌, inl, inr,
}
use ether_dream.Io.{IoError}
use ether_dream.Io.Bytes.{Bytes}
use ether_dream.Io.Reader.{ReadBytesExt, ReadsLittleEndian}
use ether_dream.Io.Writer.{WriteBytesExt, WritesLittleEndian}
use ether_dream.Io.Slice.{slice_read, SliceMut, slice_write}
use ether_dream.Dac.{playing, Addressed}
use ether_dream.Client.Tcp.{TcpStream}
use ether_dream.Emulator.{Shared, InterpretedCommand, Output}
use ether_dream.Emulator.Process.{status_of, process_interpreted_command}
use ether_dream.Emulator.Emit.{Ending, done, panicked, out_of_fuel, schedule, interval_of, emit}
use ether_dream.Emulator.Emit.Due.{IsDue, schedule_lem, emit-panicked}
use ether_dream.Emulator.Select.{process_keeps_IsDue}
use ether_dream.Emulator.Interpret.{
  Tcp, Interpretation, read_from_tcp_stream, read_command_via_tcp_and_respond, after_command,
  after_response,
}
use ether_dream.Emulator.Interpret.Buffer.{IsRoomy, HasBuffer}
use ether_dream.Emulator.Interpret.Carried.{IsCarried}
use ether_dream.Emulator.Interpret.Total.{Settles, read_from_tcp_stream-Settles}
use ether_dream.Emulator.Interpret.Responding.{respond-HasBuffer}
use ether_dream.Emulator.Next.{
  Progress, reading, processed_before, processed_after, Round, command, emission, panics, Left,
  poll_emission, given_up, emitted, emit_now, scheduled, processed, emission_round, continue_with,
  next_points,
}

-- At most one command in range is processed.
abbrev pub Handles : Shared → Shared → Type 0
Handles s s' =
    (s' ≡ s) ⊎ ((c : InterpretedCommand) × IsCarried c × (s' ≡ (process_interpreted_command c s).1))

-- A round of reading and answering ends, in success or with an error.
abbrev pub Answers : ℕ → Shared → Option (Result IoError (Unit {0}) × Shared × Tcp) → Type 0
Answers size s o =
    (result : Result IoError (Unit {0})) × (s' : Shared) × (t : Tcp) × (o ≡ some (result, s', t))
    × HasBuffer size t
    × Handles s s'

module _ ⦃r : ReadBytesExt Bytes⦄ ⦃w : WriteBytesExt SliceMut⦄
    (writes : WritesLittleEndian slice_write w) (reads : ReadsLittleEndian slice_read r) where
  pub command-Answers :
      {size : ℕ} (s : Shared) (t : Tcp)
      → IsRoomy size
      → HasBuffer size t
      → Answers size s (read_command_via_tcp_and_respond s t)
  unfolding read_command_via_tcp_and_respond after_command after_response
  command-Answers {size} s t room h = interpreted (read_from_tcp_stream-Settles reads t room h)
    where
      interpreted :
          Settles size (read_from_tcp_stream t)
          → Answers size s (after_command s (read_from_tcp_stream t))
      interpreted (err e, t', same, (h', carried)) = (err e, s, t', rw same refl, h', inl refl)
      interpreted (ok c, t', same, (h', carried)) =
          let (d, s') = process_interpreted_command c s in
          let (result, after, answered, h'') =
            respond-HasBuffer writes d t' (omega (arith, room)) h' in
          (result, s', after, rw (same, answered) refl, h'', inr (c, carried, refl))

  module _ (rate_interval : ℕ → Option ℕ) (fuel : ℕ) where
    -- It panics only if the point rate that it leaves has no interval.
    abbrev Blames : Left → Type 0
    Blames left = left.outcome ≡ panics → interval_of rate_interval left.shared ≡ none

    untimed :
        (now : ℕ) (s : Shared)
        → IsDue s
        → emit rate_interval now fuel s ≡ panicked
        → interval_of rate_interval s ≡ none
    untimed now s due e = at_rate (interval_of rate_interval s) refl
      where
        at_rate :
            (o : Option ℕ) → interval_of rate_interval s ≡ o → interval_of rate_interval s ≡ none
        at_rate none same = same
        at_rate (some interval) same = absurd (emit-panicked rate_interval now fuel s due same e)

    emit_now-panics :
        (now : ℕ) (s : Shared) (t : Tcp) → IsDue s → Blames (emit_now rate_interval fuel now s t)
    unfolding emit_now emitted
    emit_now-panics now s t due = ended (emit rate_interval now fuel s) refl
      where
        ended :
            (o : Ending (Output × Shared))
            → emit rate_interval now fuel s ≡ o
            → Blames (emitted rate_interval fuel s t o)
        ended (done (out, s')) e h = cc
        ended panicked e h = untimed now s due e
        ended out_of_fuel e h = cc

    scheduled-panics :
        (polled : ℕ) (next : Shared → Tcp → Left) (s : Shared) (t : Tcp)
        → ((s' : Shared) → IsDue s' → (status_of s').playback ≡ playing → Blames (next s' t))
        → Blames (scheduled next s t (schedule polled s))
    unfolding scheduled
    scheduled-panics polled next s t goes_on = set (schedule polled s) refl
      where
        set : (o : Option (ℕ × Shared)) → schedule polled s ≡ o → Blames (scheduled next s t o)
        set none e h = cc
        set (some (due, s')) e h =
            let (plays, same, kept, moment) = schedule_lem polled due s s' e in
            goes_on s' (due, moment) (ap (λ (a : Addressed). a.dac.status.playback) same ∙ plays) h

    processed-panics :
        (next : Shared → Tcp → Left) (bytes : Bytes) (s : Shared) (t : Tcp) (o : Interpretation)
        → ((c : InterpretedCommand) (t' : Tcp)
            → Blames (next (process_interpreted_command c s).1 t'))
        → Blames (processed next bytes s t o)
    unfolding processed
    processed-panics next bytes s t (some (ok c, t')) goes_on h = goes_on c _ h
    processed-panics next bytes s t (some (err _, t')) goes_on h = cc
    processed-panics next bytes s t none goes_on h = cc

    emission_round-panics :
        (polled now : ℕ) (p : Progress) (s : Shared) (t : Tcp)
        → Blames (emission_round rate_interval fuel polled now p s t)
    unfolding emission_round
    emission_round-panics polled now (reading k bytes) s t =
        scheduled-panics polled (λ s' t'. emit_now rate_interval fuel now s' (given_up k bytes t'))
          s t (λ s' due plays. emit_now-panics now s' (given_up k bytes t) due)
    emission_round-panics polled now (processed_before bytes) s t =
        processed-panics
          (λ s' t'. scheduled (emit_now rate_interval fuel now) s' t' (schedule polled s')) bytes s
          t (read_from_tcp_stream t)
          (λ c t'.
            scheduled-panics polled (emit_now rate_interval fuel now)
              (process_interpreted_command c s).1 t'
              (λ s' due plays. emit_now-panics now s' t' due))
    emission_round-panics polled now (processed_after bytes) s t =
        scheduled-panics polled
          (λ s' t'.
            processed (emit_now rate_interval fuel now) bytes s' t' (read_from_tcp_stream t'))
          s t
          (λ s' due plays.
            processed-panics (emit_now rate_interval fuel now) bytes s' t (read_from_tcp_stream t)
              (λ c t'.
                emit_now-panics now (process_interpreted_command c s').1 t'
                  (process_keeps_IsDue c s' plays due)))

    continue_with-panics :
        (shutdown : TcpStream → TcpStream) {size : ℕ} (next : Shared → Tcp → Left) (s : Shared)
        (t : Tcp) (o : Option (Result IoError (Unit {0}) × Shared × Tcp))
        → Answers size s o
        → ((s' : Shared) (t' : Tcp) → HasBuffer size t' → Blames (next s' t'))
        → Blames (continue_with shutdown next s t o)
    continue_with-panics shutdown next s t o (ok _, s', t', same, h, handled) goes_on =
        rw same (goes_on s' t' h)
    continue_with-panics shutdown next s t o (err e, s', t', same, h, handled) goes_on =
        rw same λ e. cc

    pub next_points-panics :
        (shutdown : TcpStream → TcpStream) {size : ℕ} (rounds : List Round) (s : Shared) (t : Tcp)
        → IsRoomy size
        → HasBuffer size t
        → Blames (next_points rate_interval fuel shutdown rounds s t)
    unfolding next_points
    next_points-panics shutdown [] s t room h = λ e. cc
    next_points-panics shutdown (emission polled now p ∷ rounds) s t room h =
        emission_round-panics polled now p s t
    next_points-panics shutdown (command polled ∷ rounds) s t room h =
        let s' = poll_emission polled s in
        continue_with-panics shutdown (next_points rate_interval fuel shutdown rounds) s' t _
          (command-Answers s' t room h)
          (λ s'' t' h'. next_points-panics shutdown rounds s'' t' room h')
