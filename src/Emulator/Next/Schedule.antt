-- ===== src/Emulator/Next/Schedule.antt =====
-- Along every schedule `next_points` makes steps of the loop.
use ether_dream.Base.{
  ℕ, ◌≡◌, refl, sym, subst, List, [], ◌∷◌, ◌⊎◌, inl, inr, Option, none, some, Result, ok, err,
}
use ether_dream.Io.{IoError}
use ether_dream.Io.Bytes.{Bytes}
use ether_dream.Io.Reader.{ReadBytesExt}
use ether_dream.Io.Writer.{WriteBytesExt}
use ether_dream.Io.Slice.{SliceMut}
use ether_dream.Client.Tcp.{TcpStream}
use ether_dream.Emulator.{Shared, InterpretedCommand, Output}
use ether_dream.Emulator.Process.{process_interpreted_command}
use ether_dream.Emulator.Invariant.{IsSound}
use ether_dream.Emulator.Emit.{Ending, done, panicked, out_of_fuel, schedule, emit}
use ether_dream.Emulator.Interpret.{
  Tcp, Interpretation, read_from_tcp_stream, read_command_via_tcp_and_respond, after_response,
  after_command,
}
use ether_dream.Emulator.Select.{
  Config, Step, schedules, processes, continues, emits, Steps, stay, goes, first_round, unpolled,
  waiting, reading, answering, Emission, Exchange, Steps-IsSafe,
}
use ether_dream.Emulator.Next.{
  Progress, processed_before, processed_after, Round, command, emission, Left, poll_emission,
  given_up, emitted, emit_now, scheduled, processed, emission_round, continue_with, next_points,
}

module _ (rate_interval : ℕ → Option ℕ) where
  -- The loop has come from `c` to a configuration with this state.
  abbrev Reaches : Config → Shared → Type 0
  Reaches c s = (d : Config) × Steps rate_interval c d × (d.shared ≡ s)

  stays :
      (s : Shared) (m : Emission) (e : Exchange)
      → Reaches (record { shared = s; emission = m; exchange = e }) s
  stays s m e = (record { shared = s; emission = m; exchange = e }, stay _, refl)

  steps_then : (c d : Config) (s : Shared) → Step rate_interval c d → Reaches d s → Reaches c s
  steps_then c d s step (last, steps, same) = (last, goes c d last step steps, same)

  abbrev Processes : Shared → Shared → Type 0
  Processes s s' = (c : InterpretedCommand) × (s' ≡ (process_interpreted_command c s).1)

  -- A round that ends well has processed a command; one that fails has processed one or none.
  abbrev Handled : Shared → Option (Result IoError (Unit {0}) × Shared × Tcp) → Type 0
  Handled s none = Unit {0}
  Handled s (some (ok _, s', t)) = Processes s s'
  Handled s (some (err _, s', t)) = (s' ≡ s) ⊎ Processes s s'

  after_response-Handled :
      ⦃w : WriteBytesExt SliceMut⦄ (s s' : Shared) (o : Option (Result IoError (Unit {0}) × Tcp))
      → Processes s s'
      → Handled s (after_response s' o)
  unfolding after_response
  after_response-Handled s s' none h = tt
  after_response-Handled s s' (some (ok _, t)) h = h
  after_response-Handled s s' (some (err _, t)) h = inr h

  command-Handled :
      ⦃r : ReadBytesExt Bytes⦄ ⦃w : WriteBytesExt SliceMut⦄ (s : Shared) (t : Tcp)
      → Handled s (read_command_via_tcp_and_respond s t)
  unfolding read_command_via_tcp_and_respond after_command
  command-Handled s t = interpreted (read_from_tcp_stream t)
    where
      interpreted : (o : Interpretation) → Handled s (after_command s o)
      interpreted none = tt
      interpreted (some (err e, t')) = inl refl
      interpreted (some (ok c, t')) =
          after_response-Handled s (process_interpreted_command c s).1 _ (c, refl)

  -- The state after a poll.
  abbrev polled_state : Shared → Option (ℕ × Shared) → Shared
  polled_state s o = elim o [ none ↦ s | some (_, s') ↦ s' ]

  abbrev at : Shared → Emission → Exchange → Config
  at s m e = record { shared = s; emission = m; exchange = e }

  emit_now-Reaches :
      (fuel now : ℕ) (e : Exchange) (s : Shared) (t : Tcp)
      → Reaches (at s waiting e) (emit_now rate_interval fuel now s t).shared
  unfolding emit_now emitted
  emit_now-Reaches fuel now e s t = ended (emit rate_interval now fuel s) refl
    where
      ended :
          (o : Ending (Output × Shared))
          → emit rate_interval now fuel s ≡ o
          → Reaches (at s waiting e) (emitted rate_interval fuel s t o).shared
      ended (done (out, s')) h =
          steps_then _ (at s' unpolled reading) s' (emits now fuel out e s s' h)
            (stays s' unpolled reading)
      ended panicked h = stays s waiting e
      ended out_of_fuel h = stays s waiting e

  scheduled-Reaches :
      (polled : ℕ) (e : Exchange) (next : Shared → Tcp → Left) (s : Shared) (t : Tcp)
      → ((s' : Shared) → Reaches (at s' waiting e) (next s' t).shared)
      → Reaches (at s unpolled e) (scheduled next s t (schedule polled s)).shared
  unfolding scheduled
  scheduled-Reaches polled e next s t reach = set (schedule polled s) refl
    where
      set :
          (o : Option (ℕ × Shared))
          → schedule polled s ≡ o
          → Reaches (at s unpolled e) (scheduled next s t o).shared
      set none h = stays s unpolled e
      set (some (due, s')) h =
          steps_then _ (at s' waiting e) _ (schedules polled due e s s' h) (reach s')

  processed-Reaches :
      (m : Emission) (next : Shared → Tcp → Left) (bytes : Bytes) (s : Shared) (t : Tcp)
      (o : Interpretation)
      → ((s' : Shared) (t' : Tcp) → Reaches (at s' m answering) (next s' t').shared)
      → Reaches (at s m reading) (processed next bytes s t o).shared
  unfolding processed
  processed-Reaches m next bytes s t (some (ok c, t')) reach =
      steps_then _ (at (process_interpreted_command c s).1 m answering) _ (processes c m s)
        (reach _ _)
  processed-Reaches m next bytes s t (some (err _, t')) reach = stays s m reading
  processed-Reaches m next bytes s t none reach = stays s m reading

  module _ (fuel : ℕ) ⦃r : ReadBytesExt Bytes⦄ where
    emission_round-Reaches :
        (polled now : ℕ) (p : Progress) (s : Shared) (t : Tcp)
        → Reaches (first_round s) (emission_round rate_interval fuel polled now p s t).shared
    unfolding emission_round
    emission_round-Reaches polled now (Progress.reading k bytes) s t =
        scheduled-Reaches polled reading
          (λ s' t'. emit_now rate_interval fuel now s' (given_up k bytes t')) s t
          (λ s'. emit_now-Reaches fuel now reading s' (given_up k bytes t))
    emission_round-Reaches polled now (processed_before bytes) s t =
        processed-Reaches unpolled
          (λ s' t'. scheduled (emit_now rate_interval fuel now) s' t' (schedule polled s')) bytes s
          t (read_from_tcp_stream t)
          (λ s' t'.
            scheduled-Reaches polled answering (emit_now rate_interval fuel now) s' t'
              (λ s''. emit_now-Reaches fuel now answering s'' t'))
    emission_round-Reaches polled now (processed_after bytes) s t =
        scheduled-Reaches polled reading
          (λ s' t'.
            processed (emit_now rate_interval fuel now) bytes s' t' (read_from_tcp_stream t'))
          s t
          (λ s'.
            processed-Reaches waiting (emit_now rate_interval fuel now) bytes s' t
              (read_from_tcp_stream t) (emit_now-Reaches fuel now answering))

    poll_emission-Reaches :
        (polled : Option ℕ) (s s' : Shared)
        → ((m : Emission) → Reaches (at (poll_emission polled s) m reading) s')
        → Reaches (first_round s) s'
    unfolding poll_emission
    poll_emission-Reaches none s s' reach = reach unpolled
    poll_emission-Reaches (some now) s s' reach = set (schedule now s) refl reach
      where
        set :
            (o : Option (ℕ × Shared))
            → schedule now s ≡ o
            → ((m : Emission) → Reaches (at (polled_state s o) m reading) s')
            → Reaches (first_round s) s'
        set none h k = k unpolled
        set (some (due, s'')) h k =
            steps_then _ (at s'' waiting reading) _ (schedules now due reading s s'' h) (k waiting)

    module _ ⦃w : WriteBytesExt SliceMut⦄ (shutdown : TcpStream → TcpStream) where
      next_points-Reaches :
          (rounds : List Round) (s : Shared) (t : Tcp)
          → Reaches (first_round s) (next_points rate_interval fuel shutdown rounds s t).shared
      unfolding next_points
      next_points-Reaches [] s t = stays s unpolled reading
      next_points-Reaches (emission polled now p ∷ rounds) s t =
          emission_round-Reaches polled now p s t
      next_points-Reaches (command polled ∷ rounds) s t =
          let s' = poll_emission polled s in
          poll_emission-Reaches polled s _ (λ m.
            handled m s' t (read_command_via_tcp_and_respond s' t) (command-Handled s' t)
              (next_points-Reaches rounds))
        where
          handled :
              (m : Emission) (s' : Shared) (t : Tcp)
              (o : Option (Result IoError (Unit {0}) × Shared × Tcp))
              → Handled s' o
              → ((s'' : Shared) (t'' : Tcp)
                  → Reaches
                      (first_round s'')
                      (next_points rate_interval fuel shutdown rounds s'' t'').shared)
              → Reaches
                  (at s' m reading)
                  (continue_with shutdown
                    (next_points rate_interval fuel shutdown rounds)
                    s'
                    t
                    o).shared
          handled m s' t none h ih = stays s' m reading
          handled m s' t (some (ok _, s'', t'')) (c, e) ih =
              steps_then _ (at (process_interpreted_command c s').1 m answering) _
                (processes c m s')
                (steps_then _ (first_round (process_interpreted_command c s').1) _ (continues m _) (
                  subst
                    (λ u.
                      Reaches (first_round u)
                        (next_points rate_interval fuel shutdown rounds s'' t'').shared)
                    e (ih s'' t'')))
          handled m s' t (some (err _, s'', t'')) (inl e) ih = (at s' m reading, stay _, sym e)
          handled m s' t (some (err _, s'', t'')) (inr (c, e)) ih =
              steps_then _ (at (process_interpreted_command c s').1 m answering) _
                (processes c m s')
                (at (process_interpreted_command c s').1 m answering, stay _, sym e)

      -- Along every schedule, whether `next_points` returns, fails, panics or is still waiting,
      -- what it leaves of the state is reached by the steps of its loop; so a sound state stays
      -- sound.
      pub next_points_lem :
          (rounds : List Round) (s : Shared) (t : Tcp)
          → let left = next_points rate_interval fuel shutdown rounds s t in
            ((c : Config) × Steps rate_interval (first_round s) c × (c.shared ≡ left.shared))
            × (IsSound s → IsSound left.shared)
      next_points_lem rounds s t =
          let (c, steps, same) = next_points-Reaches rounds s t in
          (
            (c, steps, same),
            λ sound.
                subst IsSound same
                  (Steps-IsSafe (first_round s) c steps
                    (record { sound = sound; armed = tt })).sound,
          )
