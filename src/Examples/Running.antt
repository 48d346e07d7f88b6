-- ===== src/Examples/Running.antt =====
-- dac-emulator/examples/dac_emulator_default.rs and `run_dac` of dac_emulator_visualiser.rs as wholes:
-- the broadcaster and the listener, joined. `future::join` is a parameter: it is given what each
-- future has come to so far, where `none` is one that is still pending.
use ether_dream.Base.{
  ℕ, ◌≡◌, refl, List, [], ◌∷◌, Option, none, some, Result, ok, err, and_then, ◌⊎◌, inl, inr,
}
use ether_dream.Io.{IoError}
use ether_dream.Io.Bytes.{Bytes}
use ether_dream.Io.Writer.{WriteBytesExt}
use ether_dream.Io.Slice.{SliceMut}
use ether_dream.Dac.Bitflags.{Bitflags}
use ether_dream.Emulator.{Output}
use ether_dream.Emulator.Setup.{
  SocketAddr, Description, Broadcaster, Listener, default_description, new,
}
use ether_dream.Emulator.Broadcast.{run}
use ether_dream.Emulator.Broadcast.Timer.{one_hz_send}
use ether_dream.Examples.Default.{Line, creating, listen}
use ether_dream.Examples.Visualiser.{Event, Visit, listening}

-- How a program stands.
pub data Fate : Type 0 where
  panicked : Fate
  running : Fate
  ended : Result IoError (Unit {0}) → Fate

abbrev pub Res : Type 0
Res = Result IoError (Unit {0})

abbrev pub Join : Type 0
Join = Option Res → Option Res → Option (Res × Res)

-- `future::join` is ready when both futures are, with both results.
pub record WaitsForBoth (join : Join) : Type 0 where
  pub both : (a b : Res) → join (some a) (some b) ≡ some (a, b)
  pub first : (y : Option Res) → join none y ≡ none
  pub second : (x : Option Res) → join x none ≡ none

-- `b_res?; l_res?; Ok(())`.
unfoldable pub joined : Option (Res × Res) → Fate
joined none = running
joined (some (b_res, l_res)) = ended (and_then b_res λ _. and_then l_res λ _. ok tt)

-- The system: its sockets, and the futures crate.
module _ (join : Join) {U L : Type 0} (bind_udp : SocketAddr → Result IoError U)
    (set_broadcast : U → Result IoError (Unit {0})) (bind_tcp : SocketAddr → Result IoError L)
    (send_to : Bytes → SocketAddr → U → Result IoError ℕ × U) ⦃f : Bitflags⦄
    ⦃w : WriteBytesExt SliceMut⦄ where
  -- `broadcaster.run(one_hz_send().boxed())`, after as many ticks as `took` has. The timer does not
  -- end, so without an error the future is pending.
  unfoldable pub broadcasting : (start : ℕ) → (took : List ℕ) → Broadcaster U → Option Res
  broadcasting start took broadcaster = elim (run send_to (one_hz_send start took) broadcaster).0 [
    | err e ↦ some (err e)
    | ok _ ↦ none
  ]

  module _ (start : ℕ) (took : List ℕ) where
    module _ {Addr : Type 0} where
      -- `main` of the default example from the call of `new` on, with what `accept` yields.
      unfoldable pub started :
          List (Result IoError (Addr × List Output))
          → Option (Result IoError (Broadcaster U × Listener L))
          → List (Line Addr) × Fate
      unfolding joined broadcasting
      started accepts none = ([], panicked)
      started accepts (some (err e)) = ([], ended (err e))
      started accepts (some (ok (broadcaster, listener))) =
          let (lines, l_res) = listen accepts in
          (lines, joined (join (broadcasting start took broadcaster) l_res))

      unfoldable pub main : List (Result IoError (Addr × List Output)) → List (Line Addr) × Fate
      unfolding started
      main accepts =
          let dac_description = default_description in
          let (lines, fate) =
            started accepts (new bind_udp set_broadcast bind_tcp dac_description) in
          (creating dac_description ∷ lines, fate)

      -- `run_dac` of the visualiser from the call of `new` on, with the events that it sends.
      unfoldable pub run_started :
          (open_for : ℕ)
          → List (Result IoError (Visit Addr))
          → Option (Result IoError (Broadcaster U × Listener L))
          → List (Event Addr) × Fate
      unfolding joined broadcasting
      run_started open_for accepts none = ([], panicked)
      run_started open_for accepts (some (err e)) = ([], ended (err e))
      run_started open_for accepts (some (ok (broadcaster, listener))) =
          let (events, l_res) = listening open_for accepts in
          (events, joined (join (broadcasting start took broadcaster) l_res))

      unfoldable pub run_dac :
          (open_for : ℕ)
          → Description
          → List (Result IoError (Visit Addr))
          → List (Event Addr) × Fate
      unfolding run_started
      run_dac open_for desc accepts =
          run_started open_for accepts (new bind_udp set_broadcast bind_tcp desc)

    -- It is over: with an error of `new`, or one of the broadcaster.
    abbrev pub Blames : Description → Res → Type 0
    Blames desc result =
        (e : IoError) × (result ≡ err e)
        × ((new bind_udp set_broadcast bind_tcp desc ≡ some (err e))
            ⊎ ((b : Broadcaster U) × (l : Listener L) × (new bind_udp set_broadcast bind_tcp desc
                  ≡ some (ok (b, l)))
                × ((run send_to (one_hz_send start took) b).0 ≡ err e)))

    joined-Blames :
        (waits : WaitsForBoth join) (desc : Description) (b : Broadcaster U) (l : Listener L)
        (l_res : Option Res) {result : Res}
        → new bind_udp set_broadcast bind_tcp desc ≡ some (ok (b, l))
        → joined (join (broadcasting start took b) l_res) ≡ ended result
        → Blames desc result
    unfolding joined broadcasting
    joined-Blames waits desc b l l_res {result} made h =
        ran (run send_to (one_hz_send start took) b).0 l_res refl h
      where
        ran :
            (o : Res) (l_res : Option Res)
            → (run send_to (one_hz_send start took) b).0 ≡ o
            → joined (join (elim o [ err e ↦ some (err e) | ok _ ↦ none ]) l_res) ≡ ended result
            → Blames desc result
        ran (ok _) l_res e h =
            let still : joined none ≡ ended result = rw (waits.first l_res) at h in cc
        ran (err e) none same h =
            let still : joined none ≡ ended result = rw (waits.second (some (err e))) at h in cc
        ran (err e) (some l') same h =
            let over : joined (some (err e, l')) ≡ ended result = rw (waits.both (err e) l') at h in
            (e, cc, inr (b, l, made, same))

    -- However many ticks of the timer have come, and whatever the connections yield: if the
    -- default example is over, then with an error, and it is one of `new`, or the one with which
    -- the broadcaster's run has ended. In particular the error of a failed `accept` is never its
    -- result, and while the broadcaster has none it does not end. `future::join` is ready only
    -- when both of its futures are, and then with both results.
    pub main-Blames :
        {Addr : Type 0} (waits : WaitsForBoth join)
        (accepts : List (Result IoError (Addr × List Output))) (result : Res)
        → (main accepts).1 ≡ ended result
        → Blames default_description result
    unfolding main
    main-Blames waits accepts result h =
        made (new bind_udp set_broadcast bind_tcp default_description) refl h
      where
        made :
            (o : Option (Result IoError (Broadcaster U × Listener L)))
            → new bind_udp set_broadcast bind_tcp default_description ≡ o
            → (started accepts o).1 ≡ ended result
            → Blames default_description result
        made none same e = cc
        made (some (err e)) same over = (e, cc, inl same)
        made (some (ok (b, l))) same over =
            joined-Blames waits default_description b l (listen accepts).1 same over

    -- The same for the visualiser.
    run_dac-Blames :
        {Addr : Type 0} (waits : WaitsForBoth join) (open_for : ℕ) (desc : Description)
        (accepts : List (Result IoError (Visit Addr))) (result : Res)
        → (run_dac open_for desc accepts).1 ≡ ended result
        → Blames desc result
    unfolding run_dac
    run_dac-Blames waits open_for desc accepts result h =
        made (new bind_udp set_broadcast bind_tcp desc) refl h
      where
        made :
            (o : Option (Result IoError (Broadcaster U × Listener L)))
            → new bind_udp set_broadcast bind_tcp desc ≡ o
            → (run_started open_for accepts o).1 ≡ ended result
            → Blames desc result
        made none same e = cc
        made (some (err e)) same over = (e, cc, inl same)
        made (some (ok (b, l))) same over =
            joined-Blames waits desc b l (listening open_for accepts).1 same over
