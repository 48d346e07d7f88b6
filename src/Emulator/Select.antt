-- ===== src/Emulator/Select.antt =====
-- The loop of `Stream::next_points` in dac-emulator/src/stream.rs: `select!` over the emission and
-- the next command, as steps. The future of the emission starts anew with each round of the loop, and
-- so does that of the command; but between the processing of a command and the end of the write of
-- its response the emission may still complete.
use ether_dream.Base.{ℕ, ◌≡◌, ◌≢◌, ◌∙◌, refl, ap, subst, arith, Option, some}
use ether_dream.Dac.{Addressed, playing}
use ether_dream.Emulator.{
  Shared, Command, prepare_stream, begin, point_rate, data_points, stop, emergency_stop,
  clear_emergency_stop, ping, InterpretedCommand, known, unknown, Output,
}
use ether_dream.Emulator.Process.{status_of, reply, process_interpreted_command}
use ether_dream.Emulator.Invariant.{IsSound, process_interpreted_command-IsSound}
use ether_dream.Emulator.Emit.{done, panicked, schedule, interval_of, emit}
use ether_dream.Emulator.Emit.Due.{
  IsDue, schedule_lem, schedule-IsSound, emit_done-IsSound, emit-panicked,
}

-- The emission: not polled yet, or waiting for its timer. The command: being read, or processed and
-- being answered.
pub data Emission : Type 0 where
  unpolled waiting : Emission

pub data Exchange : Type 0 where
  reading answering : Exchange

pub record Config : Type 0 where
  pub shared : Shared
  pub emission : Emission
  pub exchange : Exchange

pub data Step (rate_interval : ℕ → Option ℕ) : Config → Config → Type 0 where
  schedules :
      (now next : ℕ) (e : Exchange) (s s' : Shared)
      → schedule now s ≡ some (next, s')
      → Step rate_interval
          (record { shared = s; emission = unpolled; exchange = e })
          (record { shared = s'; emission = waiting; exchange = e })
  processes :
      (c : InterpretedCommand) (m : Emission) (s : Shared)
      → Step rate_interval
          (record { shared = s; emission = m; exchange = reading })
          (record {
            shared = (process_interpreted_command c s).1;
            emission = m;
            exchange = answering;
          })
  continues :
      (m : Emission) (s : Shared)
      → Step rate_interval
          (record { shared = s; emission = m; exchange = answering })
          (record { shared = s; emission = unpolled; exchange = reading })
  emits :
      (now fuel : ℕ) (out : Output) (e : Exchange) (s s' : Shared)
      → emit rate_interval now fuel s ≡ done (out, s')
      → Step rate_interval
          (record { shared = s; emission = waiting; exchange = e })
          (record { shared = s'; emission = unpolled; exchange = reading })

pub data Steps (rate_interval : ℕ → Option ℕ) : Config → Config → Type 0 where
  stay : (c : Config) → Steps rate_interval c c
  goes :
      (a b c : Config) → Step rate_interval a b → Steps rate_interval b c → Steps rate_interval a c

abbrev pub first_round : Shared → Config
first_round s = record { shared = s; emission = unpolled; exchange = reading }

-- While the emission waits a moment is set; and until a command is processed, playback goes on.
abbrev pub IsArmed : Emission → Exchange → Shared → Type 0
IsArmed unpolled e s = Unit {0}
IsArmed waiting reading s = IsDue s × ((status_of s).playback ≡ playing)
IsArmed waiting answering s = IsDue s

pub record IsSafe (c : Config) : Type 0 where
  pub sound : IsSound c.shared
  pub armed : IsArmed c.emission c.exchange c.shared

-- A command during playback does not unset the moment.
reply_keeps_moment :
    (c : Command) (s : Shared)
    → (status_of s).playback ≡ playing
    → (reply c s).1.state.next_point_emission ≡ s.state.next_point_emission
unfolding reply
reply_keeps_moment (prepare_stream c) s h = ground arith
reply_keeps_moment (begin c) s h = ground arith
reply_keeps_moment (point_rate c) s h = ground arith
reply_keeps_moment (data_points c) s h = ground arith
reply_keeps_moment (stop c) s h = ground arith
reply_keeps_moment (emergency_stop c) s h = refl
reply_keeps_moment (clear_emergency_stop c) s h = ground arith
reply_keeps_moment (ping c) s h = refl

pub process_keeps_IsDue :
    (c : InterpretedCommand) (s : Shared)
    → (status_of s).playback ≡ playing
    → IsDue s
    → IsDue (process_interpreted_command c s).1
unfolding process_interpreted_command
process_keeps_IsDue (known c) s h (next, due) = (next, reply_keeps_moment c s h ∙ due)
process_keeps_IsDue (unknown b) s h due = due

IsArmed-IsDue : (e : Exchange) (s : Shared) → IsArmed waiting e s → IsDue s
IsArmed-IsDue reading s (due, plays) = due
IsArmed-IsDue answering s due = due

schedule-IsArmed :
    (e : Exchange) (now next : ℕ) (s s' : Shared)
    → schedule now s ≡ some (next, s')
    → IsArmed waiting e s'
schedule-IsArmed reading now next s s' h =
    let (plays, same, kept, due) = schedule_lem now next s s' h in
    ((next, due), ap (λ (a : Addressed). a.dac.status.playback) same ∙ plays)
schedule-IsArmed answering now next s s' h =
    let (plays, same, kept, due) = schedule_lem now next s s' h in (next, due)

process-IsArmed :
    (m : Emission) (c : InterpretedCommand) (s : Shared)
    → IsArmed m reading s
    → IsArmed m answering (process_interpreted_command c s).1
process-IsArmed unpolled c s h = tt
process-IsArmed waiting c s (due, plays) = process_keeps_IsDue c s plays due

pub Step-IsSafe :
    {rate_interval : ℕ → Option ℕ} (a b : Config) → Step rate_interval a b → IsSafe a → IsSafe b
Step-IsSafe a b (schedules now next e s s' h) safe = record {
  sound = schedule-IsSound now next s s' h safe.sound;
  armed = schedule-IsArmed e now next s s' h;
}
Step-IsSafe a b (processes c m s) safe = record {
  sound = process_interpreted_command-IsSound c s safe.sound;
  armed = process-IsArmed m c s safe.armed;
}
Step-IsSafe a b (continues m s) safe = record { sound = safe.sound; armed = tt }
Step-IsSafe a b (emits now fuel out e s s' h) safe = record {
  sound = emit_done-IsSound _ now fuel s (IsArmed-IsDue e s safe.armed) safe.sound h;
  armed = tt;
}

-- In the loop of `next_points`, in whatever order timers, commands and emissions come: from a
-- configuration that is safe every configuration reached is safe. That is, the state is sound;
-- while an emission waits for its timer the next moment is set; and until a command is processed
-- during that wait, playback is going on.
pub Steps-IsSafe :
    {rate_interval : ℕ → Option ℕ} (a b : Config) → Steps rate_interval a b → IsSafe a → IsSafe b
Steps-IsSafe a b (stay c) safe = safe
Steps-IsSafe a b (goes _ m _ step steps) safe = Steps-IsSafe m b steps (Step-IsSafe a m step safe)

-- In every configuration that the loop of `next_points` reaches from a sound state, the emission
-- that waits for its timer does not panic on a next moment that is missing, also when a command
-- has been processed in the meantime: at a rate that has an interval it does not panic at all.
pub Steps-panicked :
    (rate_interval : ℕ → Option ℕ) (s : Shared) (now fuel : ℕ) (c : Config) {interval : ℕ}
    → IsSound s
    → Steps rate_interval (first_round s) c
    → c.emission ≡ waiting
    → interval_of rate_interval c.shared ≡ some interval
    → emit rate_interval now fuel c.shared ≢ panicked
Steps-panicked rate_interval s now fuel c sound steps waits timed =
    let safe = Steps-IsSafe (first_round s) c steps (record { sound = sound; armed = tt }) in
    let armed : IsArmed waiting c.exchange c.shared =
      subst (λ m. IsArmed m c.exchange c.shared) waits safe.armed in
    emit-panicked rate_interval now fuel c.shared (IsArmed-IsDue c.exchange c.shared armed) timed
