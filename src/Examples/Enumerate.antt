-- ===== src/Examples/Enumerate.antt =====
-- ether-dream/examples/enumerate_dacs.rs: listen for three seconds, and keep the DACs that were heard
-- by their MAC address. The clock is a list: what `elapsed` gives before each round of the loop. A
-- panic ends the program.
pub mod Map
use mathlib.Core.HLevel.{Discrete}
use native.Mathlib.Decide.{ℕ_discrete}
use ether_dream.Base.{
  ℕ, ◌+◌, ◌≡◌, ◌≢◌, ◌∙◌, refl, sym, ap, arith, List, [], ◌∷◌, ◌++◌, length, ltb, if◌then◌else◌,
  Option, none, some, Result, ok, err, Bool, true, false,
}
use ether_dream.Base.Dictionary.{lookup, insert}
use ether_dream.Io.{IoError, timed_out, would_block}
use ether_dream.Io.Bytes.{Bytes}
use ether_dream.Io.Reader.{ReadBytesExt}
use ether_dream.Protocol.{DacBroadcast, MacBytes}
use ether_dream.Dac.{Dac, MacAddress, Addressed, ProtocolError}
use ether_dream.Dac.Bitflags.{Bitflags}
use ether_dream.Dac.Convert.{from_broadcast}
use ether_dream.Client.Discovery.{
  RecvDacBroadcasts, recv_dac_broadcasts, set_timeout, next_broadcast,
}

pub MacBytes-discrete : Discrete MacBytes
MacBytes-discrete = hlevel ℕ_discrete

-- `PartialEq` of `MacAddress`, which is derived.
pub MacAddress-discrete : Discrete MacAddress
MacAddress-discrete = hlevel MacBytes-discrete

-- In nanoseconds.
abbrev three_secs : ℕ
three_secs = 3_000_000_000

-- The errors on which the loop goes on.
unfoldable pub is_timeout : IoError → Bool
is_timeout timed_out = true
is_timeout would_block = true
is_timeout _ = false

-- A value of the map: the pair of a DAC and the address that it was heard from.
pub record Heard (Addr : Type 0) : Type 0 where
  pub dac : Dac
  pub source_addr : Addr

abbrev pub Dacs : Type 0 → Type 0
Dacs Addr = List (MacAddress × Heard Addr)

-- The DACs so far, and the addresses that were announced as new.
pub record Found (Addr : Type 0) : Type 0 where
  pub dacs : Dacs Addr
  pub announced : List MacAddress

-- `running`: the clock was read no further.
pub data Search (Addr : Type 0) : Type 0 where
  finished : Found Addr → Search Addr
  running : Found Addr → Search Addr
  panicked : Search Addr

-- What is printed at the end: a line stands for the values in it.
pub data Summary (Addr : Type 0) : Type 0 where
  none_found : Summary Addr
  discovered : List (ℕ × MacAddress × Heard Addr) → Summary Addr

module _ {Addr : Type 0} where
  unfoldable pub found_none : Found Addr
  found_none = record { dacs = []; announced = [] }

  -- `dacs.insert(..).is_none()`.
  unfoldable pub add : Addressed → Addr → Found Addr → Found Addr
  add a addr found = record {
    dacs =
        insert MacAddress-discrete a.mac_address (record { dac = a.dac; source_addr = addr })
          found.dacs;
    announced = elim (lookup MacAddress-discrete a.mac_address found.dacs) [
      | none ↦ found.announced ++ a.mac_address ∷ []
      | some _ ↦ found.announced
    ];
  }

  -- What a round does with the result of `next_broadcast`; `none` is a panic.
  unfoldable pub add_result :
      ⦃b : Bitflags⦄ → Result IoError (DacBroadcast × Addr) → Found Addr → Option (Found Addr)
  unfolding add
  add_result (err e) found = if is_timeout e then some found else none
  add_result (ok (dac_broadcast, source_addr)) found = elim (from_broadcast dac_broadcast) [
    | err e ↦ none
    | ok a ↦ some (add a source_addr found)
  ]

  -- `enumerate`, from `i` on; the number that is printed is one more.
  unfoldable pub enumerate : ℕ → Dacs Addr → List (ℕ × MacAddress × Heard Addr)
  enumerate i [] = []
  enumerate i ((mac, heard) ∷ dacs) = (i + 1, mac, heard) ∷ enumerate (i + 1) dacs

  -- The order in which a map yields its entries, `into_iter`, is that of the standard library.
  unfoldable pub print_found : (into_iter : Dacs Addr → Dacs Addr) → Dacs Addr → Summary Addr
  unfolding enumerate
  print_found into_iter [] = none_found
  print_found into_iter (entry ∷ dacs) = discovered (enumerate 0 (into_iter (entry ∷ dacs)))

  module _ {U : Type 0} (recv_from : U → Result IoError (Bytes × Addr) × U) ⦃r : ReadBytesExt Bytes⦄
      ⦃b : Bitflags⦄ where
    unfoldable pub search : List ℕ → RecvDacBroadcasts U → Found Addr → Search Addr
    search [] rx found = running found
    search (elapsed ∷ clock) rx found =
        let (result, rx') = next_broadcast recv_from rx in
        let round : Search Addr = elim (add_result result found) [
          | none ↦ panicked
          | some found' ↦ search clock rx' found'
        ] in
        if ltb elapsed three_secs then round else finished found

    -- The socket is bound and given a timeout, which `expect` wants to succeed.
    listen :
        (set_read_timeout : Option ℕ → U → Result IoError (Unit {0}))
        → List ℕ
        → Result IoError (RecvDacBroadcasts U)
        → Search Addr
    unfolding search found_none
    listen set_read_timeout clock (err e) = panicked
    listen set_read_timeout clock (ok rx) =
        elim (set_timeout set_read_timeout (some three_secs) rx) [
          | err e ↦ panicked
          | ok _ ↦ search clock rx found_none
        ]

    -- `main`, up to the printing of what was found.
    unfoldable pub enumerate_dacs :
        (bind : ℕ → Result IoError U)
        → (set_read_timeout : Option ℕ → U → Result IoError (Unit {0})) → List ℕ
        → Search Addr
    unfolding listen
    enumerate_dacs bind set_read_timeout clock =
        listen set_read_timeout clock (recv_dac_broadcasts bind)

    -- The whole of `main`: the addresses that were announced, and the summary; `none` when it has
    -- not come to its end.
    unfoldable pub main :
        (into_iter : Dacs Addr → Dacs Addr)
        → (bind : ℕ → Result IoError U)
        → (set_read_timeout : Option ℕ → U → Result IoError (Unit {0})) → List ℕ
        → Option (List MacAddress × Summary Addr)
    unfolding enumerate_dacs print_found
    main into_iter bind set_read_timeout clock = elim (enumerate_dacs bind set_read_timeout clock) [
      | finished found ↦ some (found.announced, print_found into_iter found.dacs)
      | running found ↦ none
      | panicked ↦ none
    ]
