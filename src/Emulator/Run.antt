-- ===== src/Emulator/Run.antt =====
-- Commands one after another, as `read_command_via_tcp_and_respond` of dac-emulator/src/stream.rs
-- processes them, and the client's view of the DAC that the responses give.
use ether_dream.Base.{ℕ, ◌≡◌, refl, arith, ap, sym, subst, List, [], ◌∷◌, map, All, Result, ok}
use ether_dream.Io.{IoError}
use ether_dream.Protocol.{DacResponse, ack}
use ether_dream.Dac.{LightEngine, Addressed}
use ether_dream.Dac.Bitflags.{Bitflags, DropsUnknownBits}
use ether_dream.Dac.Conversion.{HasKnownFlags, status_from-to}
use ether_dream.Dac.Update.{update_status_lem}
use ether_dream.Client.{CommunicationError}
use ether_dream.Client.Response.{check_errors, nak_from_protocol}
use ether_dream.Client.Receiving.{settle_one, settle}
use ether_dream.Emulator.{
  Shared, Command, prepare_stream, begin, point_rate, data_points, stop, emergency_stop,
  clear_emergency_stop, ping, InterpretedCommand, known, unknown,
}
use ether_dream.Emulator.Process.{
  status_of, reply, echo_byte, process_command, process_interpreted_command,
}
use ether_dream.Emulator.Invariant.{IsSound, process_interpreted_command-IsSound}

-- The responses, in order, and the state at the end.
unfoldable pub process_all : List InterpretedCommand → Shared → List DacResponse × Shared
process_all [] s = ([], s)
process_all (c ∷ cs) s =
    let (d, after) = process_interpreted_command c s in
    let (ds, last) = process_all cs after in (d ∷ ds, last)

-- The state stays sound over any sequence.
pub process_all-IsSound :
    (cs : List InterpretedCommand) (s : Shared) → IsSound s → IsSound (process_all cs s).1
unfolding process_all
process_all-IsSound [] s h = h
process_all-IsSound (c ∷ cs) s h =
    process_all-IsSound cs _ (process_interpreted_command-IsSound c s h)

abbrev pub IsStopped : Shared → Type 0
IsStopped s = (status_of s).light_engine ≡ LightEngine.emergency_stop

latched_one :
    (c : InterpretedCommand) (s : Shared)
    → IsStopped s
    → IsStopped (process_interpreted_command c s).1
unfolding process_interpreted_command reply
latched_one (known (prepare_stream c)) s h = ground arith
latched_one (known (begin c)) s h = ground arith
latched_one (known (point_rate c)) s h = ground arith
latched_one (known (data_points c)) s h = ground arith
latched_one (known (stop c)) s h = ground arith
latched_one (known (emergency_stop c)) s h = refl
latched_one (known (clear_emergency_stop c)) s h = ground arith
latched_one (known (ping c)) s h = h
latched_one (unknown b) s h = h

-- Once the light engine is in its emergency stop, no sequence of commands gets it out,
-- `ClearEmergencyStop` included.
pub process_all-latched :
    (cs : List InterpretedCommand) (s : Shared) → IsStopped s → IsStopped (process_all cs s).1
unfolding process_all
process_all-latched [] s h = h
process_all-latched (c ∷ cs) s h = process_all-latched cs _ (latched_one c s h)

-- A reply leaves the flags and the data source alone.
reply-HasKnownFlags :
    (c : Command) (s : Shared)
    → HasKnownFlags (status_of s)
    → HasKnownFlags (status_of (reply c s).1)
unfolding reply
reply-HasKnownFlags (prepare_stream c) s h = ground arith
reply-HasKnownFlags (begin c) s h = ground arith
reply-HasKnownFlags (point_rate c) s h = ground arith
reply-HasKnownFlags (data_points c) s h = ground arith
reply-HasKnownFlags (stop c) s h = ground arith
reply-HasKnownFlags (emergency_stop c) s h = ground arith
reply-HasKnownFlags (clear_emergency_stop c) s h = ground arith
reply-HasKnownFlags (ping c) s h = h

-- What a client knows of a DAC, once it has this status.
abbrev pub updated : Addressed → Shared → Addressed
updated a s = record a { dac = record a.dac { status = status_of s } }

-- A round that ends well, with the DAC's status at the client and nothing left to read.
abbrev pub Mirrors :
    (before : Addressed)
    → Shared
    → Result CommunicationError (Unit {0}) × Addressed × List DacResponse
    → Type 0
Mirrors before last (result, a, unread) =
    (result ≡ ok tt) × (a ≡ updated before last) × (unread ≡ [])

check_errors-accepted :
    (d : DacResponse) (expected : ℕ)
    → d.command ≡ expected
    → d.response ≡ ack
    → check_errors d expected ≡ ok tt
unfolding check_errors nak_from_protocol
check_errors-accepted d expected h accepted = ground arith

module _ ⦃f : Bitflags⦄ (laws : DropsUnknownBits f) where
  -- The client takes the status of an accepted command as its own.
  settle_one-accepted :
      (c : Command) (s : Shared) (a : Addressed)
      → HasKnownFlags (status_of s)
      → (reply c s).0 ≡ ack
      → settle_one (echo_byte c) (process_command c s).0 a ≡ (ok tt, updated a (reply c s).1)
  unfolding process_command settle_one
  settle_one-accepted c s a flags accepted =
      rw
        (
          settle_one,
          check_errors-accepted (process_command c s).0 (echo_byte c) refl accepted,
          update_status_lem a.dac _ (status_from-to laws _ (reply-HasKnownFlags c s flags)),
        )
        refl

  settle-next :
      (e : IoError) (b : ℕ) (bs : List ℕ) (d : DacResponse) (ds : List DacResponse) (a : Addressed)
      {a' : Addressed}
      → settle_one b d a ≡ (ok tt, a')
      → settle e (b ∷ bs) (d ∷ ds) a ≡ settle e bs ds a'
  unfolding settle
  settle-next e b bs d ds a h = rw (settle, ap (λ r. r.0) h) (ap (λ r. settle e bs ds r.1) h)

  -- If the client holds the DAC's status or there is a command, the flags of that status are
  -- declared ones, and the emulator accepts every command of a list: the client takes all the
  -- responses without an error, leaves none unread, and holds the DAC's status after the last
  -- command.
  pub settle-process_all :
      (e : IoError) (cs : List Command) (s : Shared) (a : Addressed)
      → HasKnownFlags (status_of s)
      → (cs ≡ [] → a.dac.status ≡ status_of s)
      → All (λ d. d.response ≡ ack) (process_all (map known cs) s).0
      → Mirrors a
          (process_all (map known cs) s).1
          (settle e (map echo_byte cs) (process_all (map known cs) s).0 a)
  unfolding process_all settle process_interpreted_command process_command
  settle-process_all e [] s a flags same accepted =
      (refl, ap (λ st. record a { dac = record a.dac { status = st } }) (same refl), refl)
  settle-process_all e (c ∷ cs) s a flags same (accepted, rest) =
      let after = (reply c s).1 in
      let known_flags = reply-HasKnownFlags c s flags in
      subst (Mirrors a (process_all (map known cs) after).1)
        (sym (settle-next e _ _ _ _ a (settle_one-accepted c s a flags accepted)))
        (settle-process_all e cs after (updated a after) known_flags (λ none_left. refl) rest)
