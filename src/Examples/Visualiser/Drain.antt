-- ===== src/Examples/Visualiser/Drain.antt =====
-- What `update` of dac-emulator/examples/dac_emulator_visualiser.rs leaves of the points.
use ether_dream.Base.{
  ℕ, ◌+◌, ◌≤◌, ◌≡◌, ◌∙◌, refl, sym, ap, arith, List, [], ◌∷◌, ◌++◌, append-nil, append_assoc, leb,
  leb→le, le→leb, if◌then◌else◌, true, false, Bool-cases, inl, inr,
}
use ether_dream.Examples.Visualiser.{
  Event, connected, points, underflowed, disconnected, Perceived, Model, persistence_of_vision,
  is_fresh, position, drain_old, perceive, handle, handle_all, update,
}

-- In the order of their moments, the first at least `from`.
abbrev pub AreInOrder : ℕ → List Perceived → Type 0
AreInOrder from [] = Unit {0}
AreInOrder from (p ∷ ps) = (from ≤ p.when) × AreInOrder p.when ps

-- The points that were emitted no longer ago than the eye remembers, in order.
unfoldable pub remembered : ℕ → List Perceived → List Perceived
remembered now [] = []
remembered now (p ∷ ps) =
    if leb now (p.when + persistence_of_vision) then p ∷ remembered now ps else remembered now ps

is_fresh_lem : (now : ℕ) (p : Perceived) → is_fresh now p ≡ leb now (p.when + persistence_of_vision)
unfolding is_fresh
is_fresh_lem now p = ground arith

drain_old-nil : (now : ℕ) → drain_old now [] ≡ []
unfolding drain_old position
drain_old-nil now = refl

drain_old-fresh :
    (now : ℕ) (p : Perceived) (ps : List Perceived)
    → is_fresh now p ≡ true
    → drain_old now (p ∷ ps) ≡ p ∷ ps
unfolding drain_old position
drain_old-fresh now p ps h = rw h refl

drain_old-old :
    (now : ℕ) (p : Perceived) (ps : List Perceived)
    → is_fresh now p ≡ false
    → drain_old now (p ∷ ps) ≡ drain_old now ps
unfolding drain_old position
drain_old-old now p ps h = ground (arith, h)

remembered-all :
    (now from : ℕ) (ps : List Perceived)
    → now ≤ from + persistence_of_vision
    → AreInOrder from ps
    → remembered now ps ≡ ps
unfolding remembered
remembered-all now from [] h o = refl
remembered-all now from (p ∷ ps) h (le, o) =
    rw (le→leb now (p.when + persistence_of_vision) (omega (arith, h, le)))
      (ap (λ r. p ∷ r) (remembered-all now p.when ps (omega (arith, h, le)) o))

drain_old_lem :
    (now from : ℕ) (ps : List Perceived) → AreInOrder from ps → drain_old now ps ≡ remembered now ps
unfolding remembered
drain_old_lem now from [] o = drain_old-nil now
drain_old_lem now from (p ∷ ps) (le, o) =
    elim (Bool-cases (leb now (p.when + persistence_of_vision))) [
      | inl young ↦
          drain_old-fresh now p ps (is_fresh_lem now p ∙ young)
          ∙ rw young (ap (λ r. p ∷ r) (sym (remembered-all now p.when ps (leb→le _ _ young) o)))
      | inr old ↦
          drain_old-old now p ps (is_fresh_lem now p ∙ old) ∙ rw old (drain_old_lem now p.when ps o)
    ]

module _ {Addr : Type 0} where
  -- The points of some events, in order.
  unfoldable pub emitted_in : List (Event Addr) → List Perceived
  emitted_in [] = []
  emitted_in (points when pts ∷ events) = perceive when pts ++ emitted_in events
  emitted_in (connected addr ∷ events) = emitted_in events
  emitted_in (underflowed ∷ events) = emitted_in events
  emitted_in (disconnected ∷ events) = emitted_in events

  handle_all-perceived :
      (events : List (Event Addr)) (model : Model Addr)
      → ((handle_all events model).perceived_points ≡ model.perceived_points ++ emitted_in events)
        × ((handle_all events model).event_rx ≡ model.event_rx)
  unfolding handle_all handle emitted_in
  handle_all-perceived [] model = (sym (append-nil model.perceived_points), refl)
  handle_all-perceived (points when pts ∷ events) model =
      let (perceived, rx) = handle_all-perceived events (handle (points when pts) model) in
      (perceived ∙ append_assoc model.perceived_points (perceive when pts) (emitted_in events), rx)
  handle_all-perceived (connected addr ∷ events) model =
      handle_all-perceived events (handle (connected addr) model)
  handle_all-perceived (underflowed ∷ events) model =
      handle_all-perceived events (handle underflowed model)
  handle_all-perceived (disconnected ∷ events) model =
      handle_all-perceived events (handle disconnected model)

  -- If the points that the window holds and those of the events that wait are in the order of
  -- their moments, `update` takes all the events, and keeps exactly the points of both that were
  -- emitted no longer than 250 ms ago.
  pub update_lem :
      (now from : ℕ) (model : Model Addr)
      → let all = model.perceived_points ++ emitted_in model.event_rx in
        AreInOrder from all
        → ((update now model).perceived_points ≡ remembered now all)
          × ((update now model).event_rx ≡ [])
  unfolding update
  update_lem now from model o =
      let all = model.perceived_points ++ emitted_in model.event_rx in
      let (perceived, rx) = handle_all-perceived model.event_rx (record model { event_rx = [] }) in
      (ap (drain_old now) perceived ∙ drain_old_lem now from all o, rx)
