-- ===== src/Emulator/History.antt =====
-- What becomes of the points that dac-emulator/src/stream.rs is sent: the specification is a list of
-- the points that were accepted, and one of those that were played.
use native.Mathlib.Decide.{dec_lt}
use ether_dream.Base.{
  ℕ, ◌+◌, ◌-◌, ◌%◌, ◌^◌, ◌<◌, ◌≡◌, ◌∙◌, min, refl, sym, ap, arith, List, [], ◌∷◌, ◌++◌,
  append_assoc, append-nil, length, length-append, take, take-all, ◌==◌, if◌then◌else◌, Option,
  some, ok, err,
}
use ether_dream.Protocol.{DacPoint, ack, nak_invalid}
use ether_dream.Emulator.{
  Shared, Command, prepare_stream, begin, point_rate, data_points, stop, emergency_stop,
  clear_emergency_stop, ping, InterpretedCommand, known, unknown, Output,
}
use ether_dream.Emulator.Process.{
  status_of, capacity_of, reply, extend_buffer, process_interpreted_command,
}
use ether_dream.Emulator.Invariant.{IsSound}
use ether_dream.Emulator.Emit.{done, Progress, finish, output_or_underflow, schedule, emit}
use ether_dream.Emulator.Emit.Due.{schedule_lem, emit_done_lem, emit_done-IsDue}
use ether_dream.Emulator.Select.{
  Config, Step, schedules, processes, continues, emits, Steps, stay, goes, IsSafe, Step-IsSafe,
  Steps-IsSafe,
}

-- The points since the buffer was last cleared.
pub record Track : Type 0 where
  pub accepted : List DacPoint
  pub played : List DacPoint

abbrev pub nothing : Track
nothing = record { accepted = []; played = [] }

-- How many points wait to be played.
abbrev pub waiting_points : Track → ℕ
waiting_points t = length t.accepted - length t.played

-- What a command adds, going by its response: a `PrepareStream` that is accepted starts anew, and of
-- `Data` that is not invalid as many points are accepted as there is room for.
unfoldable pub note_command : (capacity : ℕ) → InterpretedCommand → (response : ℕ) → Track → Track
note_command capacity (known (prepare_stream _)) response t = if response == ack then nothing else t
note_command capacity (known (data_points c)) response t =
    if response == nak_invalid
    then t
    else record t { accepted = t.accepted ++ take (capacity - waiting_points t) c.points }
note_command capacity _ response t = t

unfoldable pub note_output : Output → Track → Track
note_output (ok points) t = record t { played = t.played ++ points }
note_output (err _) t = t

module _ {rate_interval : ℕ → Option ℕ} where
  unfoldable pub note_step : (a b : Config) → Step rate_interval a b → Track → Track
  unfolding note_command note_output
  note_step a b (schedules now next e s s' h) t = t
  note_step a b (processes c m s) t =
      note_command (capacity_of s) c (process_interpreted_command c s).0.response t
  note_step a b (continues m s) t = t
  note_step a b (emits now fuel out e s s' h) t = note_output out t

  -- The history of a run.
  unfoldable pub note_steps : (a b : Config) → Steps rate_interval a b → Track → Track
  unfolding note_step
  note_steps a b (stay _) t = t
  note_steps a b (goes _ m _ step steps) t = note_steps m b steps (note_step a m step t)

-- The buffer holds what was accepted and not yet played, in order; and the status counts both.
pub record Tracks (s : Shared) (t : Track) : Type 0 where
  pub in_order : t.accepted ≡ t.played ++ s.state.buffer
  pub fullness : (status_of s).buffer_fullness + length t.played ≡ length t.accepted
  pub point_count : (status_of s).point_count ≡ length t.played % 2 ^ 32

-- As many points as there is room for.
extend_buffer-room :
    (points : List DacPoint) (s : Shared)
    → IsSound s
    → (extend_buffer points s).1.state.buffer
      ≡ s.state.buffer ++ take (capacity_of s - length s.state.buffer) points
unfolding extend_buffer
extend_buffer-room points s h =
    ap (λ ps. s.state.buffer ++ ps)
      (fits (dec_lt (capacity_of s) (length s.state.buffer + length points)))
  where
    amount : ℕ
    amount =
        (min (length s.state.buffer + length points) (capacity_of s)
          + 2 ^ 64
          - length s.state.buffer)
        % 2 ^ 64

    fits :
        Dec (capacity_of s < length s.state.buffer + length points)
        → take amount points ≡ take (capacity_of s - length s.state.buffer) points
    fits (yes over) = ap (λ k. take k points) (omega (arith, h.capacity, h.bounded, over))
    fits (no under) =
        take-all amount points (omega (arith, h.capacity, h.bounded, under))
        ∙ sym (
            take-all (capacity_of s - length s.state.buffer) points
              (omega (arith, h.bounded, under)))

-- The order and the point count are what is left to show: a sound state counts its buffer.
abbrev Follows : Shared → Track → Type 0
Follows s t =
    (t.accepted ≡ t.played ++ s.state.buffer)
    × ((status_of s).point_count ≡ length t.played % 2 ^ 32)

Follows-Tracks : (s : Shared) (t : Track) → IsSound s → Follows s t → Tracks s t
Follows-Tracks s t sound (in_order, point_count) = record {
  in_order = in_order;
  fullness =
      omega (arith, sound.counted, ap length in_order, length-append t.played s.state.buffer);
  point_count = point_count;
}

waiting-buffer : (s : Shared) (t : Track) → Follows s t → waiting_points t ≡ length s.state.buffer
waiting-buffer s t (in_order, point_count) =
    omega (arith, ap length in_order, length-append t.played s.state.buffer)

extend_buffer-Follows :
    (points : List DacPoint) (s : Shared) (t : Track)
    → IsSound s
    → Follows s t
    → Follows
        (extend_buffer points s).1
        (record t { accepted = t.accepted ++ take (capacity_of s - waiting_points t) points })
unfolding extend_buffer
extend_buffer-Follows points s t sound h = (
  rw (extend_buffer-room points s sound, waiting-buffer s t h, h.0)
      (append_assoc t.played s.state.buffer _),
  h.1,
)

reply-Follows :
    (c : Command) (s : Shared) (t : Track)
    → IsSound s
    → Follows s t
    → Follows (reply c s).1 (note_command (capacity_of s) (known c) (reply c s).0 t)
unfolding reply note_command
reply-Follows (prepare_stream c) s t sound h = ground arith
reply-Follows (begin c) s t sound h = ground arith
reply-Follows (point_rate c) s t sound h = ground arith
reply-Follows (data_points c) s t sound h =
    ground (arith, extend_buffer-Follows c.points s t sound h)
reply-Follows (stop c) s t sound h = ground arith
reply-Follows (emergency_stop c) s t sound h = h
reply-Follows (clear_emergency_stop c) s t sound h = ground arith
reply-Follows (ping c) s t sound h = h

process-Follows :
    (c : InterpretedCommand) (s : Shared) (t : Track)
    → IsSound s
    → Follows s t
    → Follows
        (process_interpreted_command c s).1
        (note_command (capacity_of s) c (process_interpreted_command c s).0.response t)
unfolding process_interpreted_command note_command
process-Follows (known c) s t sound h = reply-Follows c s t sound h
process-Follows (unknown b) s t sound h = h

note_output-played :
    (points : List DacPoint) (t : Track)
    → note_output (output_or_underflow points) t ≡ record t { played = t.played ++ points }
unfolding note_output
note_output-played [] t = ap (λ ps. record t { played = ps }) (sym (append-nil t.played))
note_output-played (pt ∷ points) t = refl

finish-Follows :
    (s : Shared) (p : Progress) (t : Track)
    → p.output ++ p.buffer ≡ s.state.buffer
    → Follows s t
    → Follows (finish s p).1 (record t { played = t.played ++ p.output })
unfolding finish
finish-Follows s p t kept (in_order, point_count) = (
  rw (in_order, sym kept) (sym (append_assoc t.played p.output p.buffer)),
  omega (arith, point_count, length-append t.played p.output),
)

leaves-Follows :
    (s s' : Shared) (out : Output) (p : Progress) (t : Track)
    → s' ≡ (finish s p).1
    → out ≡ output_or_underflow p.output
    → p.output ++ p.buffer ≡ s.state.buffer
    → Follows s t
    → Follows s' (note_output out t)
leaves-Follows s s' out p t leaves puts_out kept h =
    rw (leaves, puts_out, note_output-played p.output t) (finish-Follows s p t kept h)

emit-Follows :
    (rate_interval : ℕ → Option ℕ) (now fuel : ℕ) (out : Output) (s s' : Shared) (t : Track)
    → emit rate_interval now fuel s ≡ done (out, s')
    → Follows s t
    → Follows s' (note_output out t)
emit-Follows rate_interval now fuel out s s' t ends h =
    let due = emit_done-IsDue rate_interval now fuel s ends in
    let f = emit_done_lem rate_interval now fuel s due ends in
    leaves-Follows s s' out f.progress t f.leaves f.puts_out f.in_order h

schedule-Follows :
    (now next : ℕ) (s s' : Shared) (t : Track)
    → schedule now s ≡ some (next, s')
    → Follows s t
    → Follows s' t
schedule-Follows now next s s' t h (in_order, point_count) =
    let (plays, same, kept, due) = schedule_lem now next s s' h in
    (rw kept in_order, rw same point_count)

Step-Follows :
    {rate_interval : ℕ → Option ℕ} (a b : Config) (step : Step rate_interval a b) (t : Track)
    → IsSafe a
    → Follows a.shared t
    → Follows b.shared (note_step a b step t)
unfolding note_step
Step-Follows a b (schedules now next e s s' h) t safe f = schedule-Follows now next s s' t h f
Step-Follows a b (processes c m s) t safe f = process-Follows c s t safe.sound f
Step-Follows a b (continues m s) t safe f = f
Step-Follows {rate_interval} a b (emits now fuel out e s s' h) t safe f =
    emit-Follows rate_interval now fuel out s s' t h f

Steps-Follows :
    {rate_interval : ℕ → Option ℕ} (a b : Config) (steps : Steps rate_interval a b) (t : Track)
    → IsSafe a
    → Follows a.shared t
    → Follows b.shared (note_steps a b steps t)
unfolding note_steps
Steps-Follows a b (stay c) t safe h = h
Steps-Follows a b (goes _ m _ step steps) t safe h =
    Steps-Follows m b steps (note_step a m step t) (Step-IsSafe a m step safe)
      (Step-Follows a m step t safe h)

-- No point that is accepted is lost, repeated or taken out of order. In the loop of
-- `next_points`, in whatever order timers, commands and emissions come, from a safe
-- configuration: if the points accepted are those played followed by those in the buffer, and the
-- status counts the ones in the buffer and, modulo 2^32, the ones played, then the same holds
-- after the run. There an accepted `PrepareStream` starts both lists anew, a `Data` that is
-- answered with `ACK` or with `NAK_FULL` adds as many of its points as there was room for, and an
-- emission adds what it puts out.
pub Steps-Tracks :
    {rate_interval : ℕ → Option ℕ} (a b : Config) (steps : Steps rate_interval a b) (t : Track)
    → IsSafe a
    → Tracks a.shared t
    → Tracks b.shared (note_steps a b steps t)
Steps-Tracks a b steps t safe h =
    Follows-Tracks b.shared (note_steps a b steps t) (Steps-IsSafe a b steps safe).sound
      (Steps-Follows a b steps t safe (h.in_order, h.point_count))
