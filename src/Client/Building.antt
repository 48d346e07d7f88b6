-- ===== src/Client/Building.antt =====
-- Each builder of `CommandQueue` appends one command to those that are queued.
use ether_dream.Base.{
  ℕ, zero, suc, ◌-◌, ◌≤◌, ◌<◌, ◌≡◌, refl, arith, ap, List, [], ◌∷◌, ◌++◌, map, length,
  length-append, take, drop, All, All-append, some, none, drop-length-append, length-drop, lt→ltb,
}
use mathlib.Core.List.{map-append}
use ether_dream.Protocol.{DacPoint}
use ether_dream.Protocol.Command.{Stop, Ping, PrepareStream, u16_max}
use ether_dream.Dac.Command.{Command}
use ether_dream.Client.{Stream, CommandQueue, QueuedCommand, Range, prepare_stream, data_range}
use ether_dream.Client.Queue
use ether_dream.Client.Queue.{queue_commands, push_command, queue_data}
use ether_dream.Client.View.{cut, view, IsRange, IsQueued, IsQueue, queued}

-- Appending points behind a range does not change what it cuts out.
take-append_le {ℓ} :
    {A : Type ℓ} (n : ℕ) (xs ys : List A) → n ≤ length xs → take n (xs ++ ys) ≡ take n xs
take-append_le zero xs ys h = refl
take-append_le (suc n) [] ys h = absurd (omega arith)
take-append_le (suc n) (x ∷ xs) ys h = ap (λ r. x ∷ r) (take-append_le n xs ys (omega arith))

drop-append_le {ℓ} :
    {A : Type ℓ} (n : ℕ) (xs ys : List A) → n ≤ length xs → drop n (xs ++ ys) ≡ drop n xs ++ ys
drop-append_le zero xs ys h = refl
drop-append_le (suc n) [] ys h = absurd (omega arith)
drop-append_le (suc n) (x ∷ xs) ys h = drop-append_le n xs ys (omega arith)

cut-append :
    (range : Range) (points more : List DacPoint)
    → IsRange points range
    → cut range (points ++ more) ≡ cut range points
cut-append range points more h = rw (
  drop-append_le range.first points more (omega (arith, h.ordered, h.inside)),
  take-append_le (range.past - range.first) (drop range.first points) more
      (omega (arith, length-drop range.first points, h.inside)),
)

view-append :
    (points more : List DacPoint) (c : QueuedCommand)
    → IsQueued points c
    → view (points ++ more) c ≡ view points c
view-append points more (data_range range) h =
    ap (λ ps. Command.data_points (record { points = ps })) (cut-append range points more h)
view-append points more _ h = refl

views-append :
    (points more : List DacPoint) (cs : List QueuedCommand)
    → All (IsQueued points) cs
    → map (view (points ++ more)) cs ≡ map (view points) cs
views-append points more [] h = refl
views-append points more (c ∷ cs) h =
    rw (view-append points more c h.0, views-append points more cs h.1)

IsQueued-append :
    (points more : List DacPoint) (c : QueuedCommand)
    → IsQueued points c
    → IsQueued (points ++ more) c
IsQueued-append points more (data_range range) h = record {
  ordered = h.ordered;
  inside = omega (arith, h.inside, length-append points more);
  short = h.short;
}
IsQueued-append points more prepare_stream h = tt
IsQueued-append points more _ h = tt

All-IsQueued-append :
    (points more : List DacPoint) (cs : List QueuedCommand)
    → All (IsQueued points) cs
    → All (IsQueued (points ++ more)) cs
All-IsQueued-append points more [] h = tt
All-IsQueued-append points more (c ∷ cs) h =
    (IsQueued-append points more c h.0, All-IsQueued-append points more cs h.1)

-- `q'` holds the commands of `q` and then `c`, and all of them can be sent.
pub record Appends (q : CommandQueue) (c : Command) (q' : CommandQueue) : Type 0 where
  pub can_send : IsQueue q'
  pub holds : queued q' ≡ queued q ++ c ∷ []

-- A fresh queue is empty.
pub queue_commands_empty :
    (s : Stream) → IsQueue (queue_commands s) × (queued (queue_commands s) ≡ [])
unfolding queue_commands
queue_commands_empty s = (tt, refl)

module _ (q : CommandQueue) (h : IsQueue q) where
  push-Appends :
      (c : QueuedCommand)
      → IsQueued q.stream.point_buffer c
      → Appends q (view q.stream.point_buffer c) (push_command q c)
  push-Appends c hc = record {
    can_send =
        All-append (IsQueued q.stream.point_buffer) q.stream.command_buffer (c ∷ []) h (hc, tt);
    holds = map-append (view q.stream.point_buffer) q.stream.command_buffer (c ∷ []);
  }

  prepare_stream-Appends :
      Appends q (Command.prepare_stream PrepareStream.prepare_stream) (Queue.prepare_stream q)
  unfolding Queue.prepare_stream
  prepare_stream-Appends = push-Appends QueuedCommand.prepare_stream tt

  begin-Appends :
      (low_water_mark rate : ℕ)
      → Appends q
          (Command.begin (record { low_water_mark = low_water_mark; point_rate = rate }))
          (Queue.begin q low_water_mark rate)
  unfolding Queue.begin
  begin-Appends low_water_mark rate = push-Appends (QueuedCommand.begin _) tt

  point_rate-Appends :
      (rate : ℕ) → Appends q (Command.point_rate (record { rate = rate })) (Queue.point_rate q rate)
  unfolding Queue.point_rate
  point_rate-Appends rate = push-Appends (QueuedCommand.point_rate _) tt

  stop-Appends : Appends q (Command.stop Stop.stop) (Queue.stop q)
  unfolding Queue.stop
  stop-Appends = push-Appends QueuedCommand.stop tt

  -- What the two builders of the emergency stop append is `Stop`.
  emergency_stop-Appends : Appends q (Command.stop Stop.stop) (Queue.emergency_stop q)
  unfolding Queue.emergency_stop
  emergency_stop-Appends = push-Appends QueuedCommand.stop tt

  clear_emergency_stop-Appends : Appends q (Command.stop Stop.stop) (Queue.clear_emergency_stop q)
  unfolding Queue.clear_emergency_stop
  clear_emergency_stop-Appends = push-Appends QueuedCommand.stop tt

  ping-Appends : Appends q (Command.ping Ping.ping) (Queue.ping q)
  unfolding Queue.ping
  ping-Appends = push-Appends QueuedCommand.ping tt

-- On a queue whose ranges can be sent, each builder without points appends one command to those
-- that are queued, changes none of them, and leaves a queue whose ranges can be sent. The command
-- is the builder's own with the fields given, except that both `emergency_stop` and
-- `clear_emergency_stop` append `Stop`.
pub builders-Appends :
    (q : CommandQueue) (low_water_mark rate : ℕ)
    → IsQueue q
    → Appends q (Command.prepare_stream PrepareStream.prepare_stream) (Queue.prepare_stream q)
      × Appends q
          (Command.begin (record { low_water_mark = low_water_mark; point_rate = rate }))
          (Queue.begin q low_water_mark rate)
      × Appends q (Command.point_rate (record { rate = rate })) (Queue.point_rate q rate)
      × Appends q (Command.stop Stop.stop) (Queue.stop q)
      × Appends q (Command.stop Stop.stop) (Queue.emergency_stop q)
      × Appends q (Command.stop Stop.stop) (Queue.clear_emergency_stop q)
      × Appends q (Command.ping Ping.ping) (Queue.ping q)
builders-Appends q low_water_mark rate h = (
  prepare_stream-Appends q h,
  begin-Appends q h low_water_mark rate,
  point_rate-Appends q h rate,
  stop-Appends q h,
  emergency_stop-Appends q h,
  clear_emergency_stop-Appends q h,
  ping-Appends q h,
)

abbrev new_range : List DacPoint → List DacPoint → Range
new_range points ps = record { first = length points; past = length (points ++ ps) }

take-all {ℓ} : {A : Type ℓ} (xs : List A) → take (length xs) xs ≡ xs
take-all [] = refl
take-all (x ∷ xs) = ap (λ r. x ∷ r) (take-all xs)

cut-new_range : (points ps : List DacPoint) → cut (new_range points ps) (points ++ ps) ≡ ps
cut-new_range points ps =
    let count : length (points ++ ps) - length points ≡ length ps =
      omega (arith, length-append points ps) in
    rw (count, drop-length-append points ps) (take-all ps)

abbrev extended : CommandQueue → List DacPoint → CommandQueue
extended q ps = record { stream = record q.stream { point_buffer = q.stream.point_buffer ++ ps } }

extended-Appends :
    (q : CommandQueue) (ps : List DacPoint)
    → IsQueue q
    → length ps < u16_max
    → Appends q (Command.data_points (record { points = ps })) (
        push_command
          (extended q ps)
          (QueuedCommand.data_range (new_range q.stream.point_buffer ps)))
extended-Appends q ps h small =
    let points = q.stream.point_buffer in
    let pushed =
      push-Appends (extended q ps) (All-IsQueued-append points ps q.stream.command_buffer h)
        (QueuedCommand.data_range (new_range points ps))
        (record {
          ordered = omega (arith, length-append points ps);
          inside = omega arith;
          short = omega (arith, length-append points ps);
        }) in
    record {
      can_send = pushed.can_send;
      holds =
          rw (views-append points ps q.stream.command_buffer h, cut-new_range points ps) at
            pushed.holds;
    }

-- If every queued range can be sent, `data` with fewer than 65535 points does not panic, appends
-- one `Data` command with exactly these points to the commands that are queued, changes none of
-- those, and every queued range can still be sent.
pub queue_data_lem :
    (q : CommandQueue) (ps : List DacPoint)
    → IsQueue q
    → length ps < u16_max
    → (q' : CommandQueue) × (queue_data q ps ≡ some q')
      × Appends q (Command.data_points (record { points = ps })) q'
unfolding queue_data
queue_data_lem q ps h small =
    let count : length (q.stream.point_buffer ++ ps) - length q.stream.point_buffer < u16_max =
      omega (arith, length-append q.stream.point_buffer ps) in
    (_, rw (lt→ltb _ _ count), extended-Appends q ps h small)

-- `data` with 65535 points or more panics.
pub queue_data_panics :
    (q : CommandQueue) (ps : List DacPoint) → u16_max ≤ length ps → queue_data q ps ≡ none
unfolding queue_data
queue_data_panics q ps h = ground (arith, length-append q.stream.point_buffer ps)
