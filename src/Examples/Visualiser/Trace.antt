-- ===== src/Examples/Visualiser/Trace.antt =====
-- The order of the events in dac-emulator/examples/dac_emulator_visualiser.rs, and the stream that the
-- window takes for active.
use ether_dream.Base.{
  ℕ, zero, suc, ◌≡◌, sym, subst, List, [], ◌∷◌, ◌++◌, append-nil, if◌then◌else◌, Bool, true, false,
  Option, none, some, Result, ok, err,
}
use ether_dream.Io.{IoError}
use ether_dream.Emulator.{Output}
use ether_dream.Examples.Visualiser.{
  Event, connected, points, underflowed, disconnected, Emitted, Visit, Model, new_model, handle,
  handle_all, output_event, emit_events, listening,
}

module _ {Addr : Type 0} where
  -- The events that may follow while the stream of an address is active, or none is: a connection
  -- comes when there is none, and points, underflows and the end only during one.
  abbrev pub Follows : Option Addr → List (Event Addr) → Type 0
  Follows active [] = Unit {0}
  Follows none (connected addr ∷ events) = Follows (some addr) events
  Follows none (points when pts ∷ events) = ⊥
  Follows none (underflowed ∷ events) = ⊥
  Follows none (disconnected ∷ events) = ⊥
  Follows (some a) (connected addr ∷ events) = ⊥
  Follows (some a) (points when pts ∷ events) = Follows (some a) events
  Follows (some a) (underflowed ∷ events) = Follows (some a) events
  Follows (some a) (disconnected ∷ events) = Follows none events

  emit_events-Follows :
      (a : Addr) (emitted : List Emitted) (events : List (Event Addr))
      → Follows (some a) events
      → Follows (some a) (emit_events emitted ++ events)
  unfolding emit_events
  emit_events-Follows a [] events h = h
  emit_events-Follows a (e ∷ rest) events h =
      room e.room e.output (emit_events-Follows a rest events h)
    where
      room :
          (b : Bool) (out : Output)
          → Follows (some a) (emit_events rest ++ events)
          → Follows (some a) (
              (if b then output_event out e.now ∷ emit_events rest else emit_events rest) ++ events)
      room true (ok pts) k = k
      room true (err _) k = k
      room false out k = k

  events-Follows :
      (open_for : ℕ) (accepts : List (Result IoError (Visit Addr)))
      → Follows none (listening open_for accepts).0
  unfolding listening
  events-Follows open_for [] = tt
  events-Follows open_for (err e ∷ rest) = tt
  events-Follows zero (ok visit ∷ rest) = tt
  events-Follows (suc zero) (ok visit ∷ rest) =
      rw append-nil at (emit_events-Follows visit.addr visit.emitted [] tt)
  events-Follows (suc (suc n)) (ok visit ∷ rest) =
      emit_events-Follows visit.addr visit.emitted _ (events-Follows n rest)

  handle-Follows :
      (event : Event Addr) (events : List (Event Addr)) (model : Model Addr)
      → Follows model.active_stream (event ∷ events)
      → Follows (handle event model).active_stream events
  unfolding handle
  handle-Follows event events model h = active model.active_stream event h
    where
      active :
          (o : Option Addr) (e : Event Addr)
          → Follows o (e ∷ events)
          → Follows (handle e (record model { active_stream = o })).active_stream events
      active none (connected addr) k = k
      active (some a) (points when pts) k = k
      active (some a) underflowed k = k
      active (some a) disconnected k = k
      active none (points when pts) k = absurd k
      active none underflowed k = absurd k
      active none disconnected k = absurd k
      active (some a) (connected addr) k = absurd k

  handle_all-Follows :
      (events rest : List (Event Addr)) (model : Model Addr)
      → Follows model.active_stream (events ++ rest)
      → Follows (handle_all events model).active_stream rest
  unfolding handle_all
  handle_all-Follows [] rest model h = h
  handle_all-Follows (event ∷ events) rest model h =
      handle_all-Follows events rest (handle event model)
        (handle-Follows event (events ++ rest) model h)

  -- Whatever the connections yield, whichever events are dropped for lack of room, and however
  -- long the window stays open: when it has handled some of the events, those that are still to
  -- come follow the stream that it takes for active. So a connection comes only when it shows
  -- none, and points, underflows and the end of a connection only while it shows one.
  pub listening-Follows :
      (open_for : ℕ) (accepts : List (Result IoError (Visit Addr)))
      (events rest : List (Event Addr))
      → events ++ rest ≡ (listening open_for accepts).0
      → Follows (handle_all events (new_model [])).active_stream rest
  unfolding new_model
  listening-Follows open_for accepts events rest h =
      handle_all-Follows events rest (new_model [])
        (subst (Follows none) (sym h) (events-Follows open_for accepts))
