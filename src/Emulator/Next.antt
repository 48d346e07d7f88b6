-- ===== src/Emulator/Next.antt =====
-- `Stream::next_points` of dac-emulator/src/stream.rs, run along a schedule: what `select!` sees in each
-- round of its loop. A panic and a schedule that ends are outcomes of their own.
pub mod Schedule
pub mod Serving
pub mod GivenUp
pub mod Total
pub mod Bounds
use ether_dream.Base.{
  ℕ, List, [], ◌∷◌, length, drop, Option, none, some, Result, ok, err, Bool, true, false,
}
use ether_dream.Io.{IoError}
use ether_dream.Io.Bytes.{Bytes}
use ether_dream.Io.Reader.{ReadBytesExt}
use ether_dream.Io.Writer.{WriteBytesExt}
use ether_dream.Io.Slice.{SliceMut}
use ether_dream.Client.Tcp.{TcpStream}
use ether_dream.Emulator.{Shared, Output}
use ether_dream.Emulator.Process.{process_interpreted_command}
use ether_dream.Emulator.Emit.{Ending, done, panicked, out_of_fuel, schedule, emit}
use ether_dream.Emulator.Interpret.{
  Tcp, Interpretation, read_from_tcp_stream, read_command_via_tcp_and_respond,
}

-- How far the command is when the timer of the emission fires, whose end drops its future: so many
-- bytes were read; or it was processed, before or after the emission began to wait, and the call of `write`
-- was still pending. The buffer then holds the given bytes.
pub data Progress : Type 0 where
  reading : ℕ → Bytes → Progress
  processed_before : Bytes → Progress
  processed_after : Bytes → Progress

-- A round of the loop: the command completes, and the emission was polled before at some moment, or
-- was not; or the emission, polled at a moment, completes at another one.
pub data Round : Type 0 where
  command : Option ℕ → Round
  emission : (polled now : ℕ) → Progress → Round

pub data Outcome : Type 0 where
  returns : Output → Outcome
  fails : IoError → Outcome
  panics : Outcome
  pending : Outcome

-- An outcome, and what it leaves.
pub record Left : Type 0 where
  pub outcome : Outcome
  pub shared : Shared
  pub tcp : Tcp

-- The first poll of the emission. If nothing is played it has no effect.
unfoldable pub poll_emission : Option ℕ → Shared → Shared
poll_emission none s = s
poll_emission (some now) s = elim (schedule now s) [ none ↦ s | some (_, s') ↦ s' ]

abbrev pub given_up : ℕ → Bytes → Tcp → Tcp
given_up k bytes t = record t {
  stream = record t.stream { incoming = drop k t.stream.incoming };
  bytes = bytes;
}

-- The schedule cannot go on like this.
abbrev stuck : Shared → Tcp → Left
stuck s t = record { outcome = pending; shared = s; tcp = t }

-- From the first poll on. An emission that waits for no timer never completes.
scheduled : (Shared → Tcp → Left) → Shared → Tcp → Option (ℕ × Shared) → Left
scheduled next s t none = stuck s t
scheduled next s t (some (_, s')) = next s' t

-- The command is processed; its response gets no further than the buffer.
processed : (Shared → Tcp → Left) → Bytes → Shared → Tcp → Interpretation → Left
processed next bytes s t (some (ok c, t')) =
    next (process_interpreted_command c s).1 (record t' { bytes = bytes })
processed next bytes s t (some (err _, t')) = stuck s t
processed next bytes s t none = stuck s t

-- What follows the command: the next round of the loop, or the end of it. The result of
-- `shutdown` is not looked at.
abbrev pub continue_with :
    (shutdown : TcpStream → TcpStream)
    → (Shared → Tcp → Left)
    → Shared
    → Tcp
    → Option (Result IoError (Unit {0}) × Shared × Tcp)
    → Left
continue_with shutdown next s t none = record { outcome = panics; shared = s; tcp = t }
continue_with shutdown next s t (some (ok _, s', t')) = next s' t'
continue_with shutdown next s t (some (err e, s', t')) = record {
  outcome = fails e;
  shared = s';
  tcp = record t' { stream = shutdown t'.stream };
}

module _ (rate_interval : ℕ → Option ℕ) (fuel : ℕ) where
  -- The end of the emission: `return Ok(res)`.
  emitted : Shared → Tcp → Ending (Output × Shared) → Left
  emitted s t (done (out, s')) = record { outcome = returns out; shared = s'; tcp = t }
  emitted s t panicked = record { outcome = panics; shared = s; tcp = t }
  emitted s t out_of_fuel = record { outcome = pending; shared = s; tcp = t }

  unfoldable pub emit_now : ℕ → Shared → Tcp → Left
  unfolding emitted
  emit_now now s t = emitted s t (emit rate_interval now fuel s)

  module _ ⦃r : ReadBytesExt Bytes⦄ where
    unfoldable pub emission_round : (polled now : ℕ) → Progress → Shared → Tcp → Left
    unfolding scheduled processed emit_now
    emission_round polled now (reading k bytes) s t =
        scheduled (λ s' t'. emit_now now s' (given_up k bytes t')) s t (schedule polled s)
    emission_round polled now (processed_before bytes) s t =
        processed (λ s' t'. scheduled (emit_now now) s' t' (schedule polled s')) bytes s t
          (read_from_tcp_stream t)
    emission_round polled now (processed_after bytes) s t =
        scheduled (λ s' t'. processed (emit_now now) bytes s' t' (read_from_tcp_stream t')) s t
          (schedule polled s)

    module _ ⦃w : WriteBytesExt SliceMut⦄ (shutdown : TcpStream → TcpStream) where
      unfoldable pub next_points : List Round → Shared → Tcp → Left
      next_points [] s t = record { outcome = pending; shared = s; tcp = t }
      next_points (command polled ∷ rounds) s t =
          let s' = poll_emission polled s in
          continue_with shutdown (next_points rounds) s' t (read_command_via_tcp_and_respond s' t)
      next_points (emission polled now progress ∷ rounds) s t =
          emission_round polled now progress s t
