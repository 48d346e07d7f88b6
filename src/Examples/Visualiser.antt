-- ===== src/Examples/Visualiser.antt =====
-- dac-emulator/examples/dac_emulator_visualiser.rs: the events that the emulator's thread sends, and
-- the model of the window that takes them. Moments are nanoseconds.
pub mod Drain
pub mod Trace
use ether_dream.Base.{
  ℕ, zero, suc, ◌+◌, ◌-◌, List, [], ◌∷◌, ◌++◌, map, length, drop, ltb, ◌&&◌, not, if◌then◌else◌,
  Option, none, some, Bool, true, false, Result, ok, err,
}
use ether_dream.Io.{IoError}
use ether_dream.Protocol.{DacPoint}
use ether_dream.Emulator.{Output}

pub data Event (Addr : Type 0) : Type 0 where
  connected : Addr → Event Addr
  points : ℕ → List DacPoint → Event Addr
  underflowed : Event Addr
  disconnected : Event Addr

-- A point, and when it was emitted.
pub record Perceived : Type 0 where
  pub when : ℕ
  pub point : DacPoint

-- `event_rx` is what waits in the channel.
pub record Model (Addr : Type 0) : Type 0 where
  pub active_stream : Option Addr
  pub perceived_points : List Perceived
  pub event_rx : List (Event Addr)
  pub underflowing : Bool

-- `Duration::from_millis(250)`.
abbrev pub persistence_of_vision : ℕ
persistence_of_vision = 250_000_000

-- The closure that `position` is given.
unfoldable pub is_fresh : ℕ → Perceived → Bool
is_fresh now p = not (ltb p.when now && ltb persistence_of_vision (now - p.when))

-- `Iterator::position`.
unfoldable pub position : {A : Type 0} → (A → Bool) → List A → Option ℕ
position test [] = none
position test (x ∷ xs) =
    if test x then some 0 else elim (position test xs) [ none ↦ none | some i ↦ some (suc i) ]

abbrev pub unwrap_or : Option ℕ → ℕ → ℕ
unwrap_or none n = n
unwrap_or (some i) n = i

-- `drain(0..too_old)`.
unfoldable pub drain_old : ℕ → List Perceived → List Perceived
unfolding is_fresh position
drain_old now perceived_points =
    let too_old = unwrap_or (position (is_fresh now) perceived_points) (length perceived_points) in
    drop too_old perceived_points

abbrev pub perceive : ℕ → List DacPoint → List Perceived
perceive when pts = map (λ pt. record { when = when; point = pt }) pts

-- What `next_points` yields, the moment at which it does, and whether the channel has room then.
pub record Emitted : Type 0 where
  pub output : Output
  pub now : ℕ
  pub room : Bool

-- A connection that was accepted, with what it yields until `next_points` fails.
pub record Visit (Addr : Type 0) : Type 0 where
  pub addr : Addr
  pub emitted : List Emitted

module _ {Addr : Type 0} where
  -- `model`.
  unfoldable pub new_model : List (Event Addr) → Model Addr
  new_model event_rx = record {
    active_stream = none;
    perceived_points = [];
    event_rx = event_rx;
    underflowing = false;
  }

  unfoldable pub handle : Event Addr → Model Addr → Model Addr
  handle underflowed model = record model { underflowing = true }
  handle (connected addr) model = record model { active_stream = some addr }
  handle disconnected model = record model { active_stream = none }
  handle (points when pts) model = record model {
    underflowing = false;
    perceived_points = model.perceived_points ++ perceive when pts;
  }

  unfoldable pub handle_all : List (Event Addr) → Model Addr → Model Addr
  handle_all [] model = model
  handle_all (event ∷ events) model = handle_all events (handle event model)

  unfoldable pub update : ℕ → Model Addr → Model Addr
  update now model =
      let after = handle_all model.event_rx (record model { event_rx = [] }) in
      record after { perceived_points = drain_old now after.perceived_points }

  unfoldable pub output_event : Output → ℕ → Event Addr
  output_event (err _) now = underflowed
  output_event (ok pts) now = points now pts

  -- The inner loop. `try_send` drops an event for which there is no room.
  unfoldable pub emit_events : List Emitted → List (Event Addr)
  unfolding output_event
  emit_events [] = []
  emit_events (e ∷ rest) =
      if e.room then output_event e.output e.now ∷ emit_events rest else emit_events rest

  -- The outer loop, over what `accept` yields; `send` waits for room, and fails once the window is
  -- gone, which is after `open_for` such calls. With the results the loop is still waiting.
  unfoldable pub listening :
      (open_for : ℕ)
      → List (Result IoError (Visit Addr))
      → List (Event Addr) × Option (Result IoError (Unit {0}))
  unfolding emit_events
  listening open_for [] = ([], none)
  listening open_for (err e ∷ rest) = ([], some (err e))
  listening zero (ok visit ∷ rest) = ([], some (ok tt))
  listening (suc zero) (ok visit ∷ rest) =
      (connected visit.addr ∷ emit_events visit.emitted, some (ok tt))
  listening (suc (suc n)) (ok visit ∷ rest) =
      let (events, result) = listening n rest in
      (connected visit.addr ∷ (emit_events visit.emitted ++ disconnected ∷ events), result)
