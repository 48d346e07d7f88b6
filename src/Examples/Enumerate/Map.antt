-- ===== src/Examples/Enumerate/Map.antt =====
-- What the search of ether-dream/examples/enumerate_dacs.rs finds.
use ether_dream.Base.{
  ℕ, ◌≡◌, ◌≤◌, ◌<◌, ◌∙◌, refl, sym, ap, arith, List, [], ◌∷◌, All, ltb, ltb→lt, Bool-cases, ◌⊎◌,
  inl, inr, if◌then◌else◌, Option, none, some, Result, ok, err, true,
}
use ether_dream.Base.Dictionary.{
  lookup, lookup-insert_self, lookup-insert_other, keys, keys-insert_new, keys-insert_known,
  lookup-none, AreDistinct, AreDistinct-snoc,
}
use ether_dream.Io.{IoError}
use ether_dream.Io.Bytes.{Bytes}
use ether_dream.Io.Reader.{ReadBytesExt}
use ether_dream.Protocol.{DacBroadcast}
use ether_dream.Dac.{MacAddress, Addressed}
use ether_dream.Dac.Bitflags.{Bitflags}
use ether_dream.Dac.Convert.{from_broadcast}
use ether_dream.Client.Discovery.{RecvDacBroadcasts, next_broadcast}
use ether_dream.Examples.Enumerate.{
  MacAddress-discrete, Heard, Found, found_none, add, is_timeout, add_result, finished, search,
  three_secs,
}

module _ {Addr : Type 0} where
  -- The description, from the results of the rounds: what was last heard from an address.
  pub heard_in :
      ⦃b : Bitflags⦄ → MacAddress → Result IoError (DacBroadcast × Addr) → Option (Heard Addr)
  heard_in k (err e) = none
  heard_in k (ok (dac_broadcast, source_addr)) = elim (from_broadcast dac_broadcast) [
    | err e ↦ none
    | ok a ↦ elim (MacAddress-discrete a.mac_address k) [
      | yes _ ↦ some (record { dac = a.dac; source_addr = source_addr })
      | no _ ↦ none
    ]
  ]

  abbrev latest : Option (Heard Addr) → Option (Heard Addr) → Option (Heard Addr)
  latest none before = before
  latest (some h) before = some h

  pub last_heard :
      ⦃b : Bitflags⦄
      → MacAddress
      → Option (Heard Addr)
      → List (Result IoError (DacBroadcast × Addr))
      → Option (Heard Addr)
  last_heard k before [] = before
  last_heard k before (result ∷ results) = last_heard k (latest (heard_in k result) before) results

  -- One entry for each address, announced once.
  pub record IsMap (found : Found Addr) : Type 0 where
    pub distinct : AreDistinct (keys MacAddress-discrete found.dacs)
    pub announced : found.announced ≡ keys MacAddress-discrete found.dacs

  found_none-IsMap : IsMap found_none
  unfolding found_none
  found_none-IsMap = record { distinct = tt; announced = refl }

  abbrev pub lookup_of : MacAddress → Found Addr → Option (Heard Addr)
  lookup_of k found = lookup MacAddress-discrete k found.dacs

  add-IsMap :
      (a : Addressed) (addr : Addr) (found : Found Addr) → IsMap found → IsMap (add a addr found)
  unfolding add
  add-IsMap a addr found h = tested (lookup MacAddress-discrete a.mac_address found.dacs) refl
    where
      tested :
          (o : Option (Heard Addr))
          → lookup MacAddress-discrete a.mac_address found.dacs ≡ o
          → IsMap (add a addr found)
      tested none e =
          let same =
            keys-insert_new MacAddress-discrete a.mac_address
              (record { dac = a.dac; source_addr = addr }) found.dacs e in
          record {
            distinct =
                rw same (AreDistinct-snoc _ _ (lookup-none MacAddress-discrete _ _ e) h.distinct);
            announced = ground (arith, e, same, h.announced);
          }
      tested (some old) e =
          let same =
            keys-insert_known MacAddress-discrete a.mac_address
              (record { dac = a.dac; source_addr = addr }) old found.dacs e in
          record { distinct = rw same h.distinct; announced = ground (arith, e, same, h.announced) }

  lookup_of-add :
      ⦃b : Bitflags⦄ (a : Addressed) (d : DacBroadcast) (addr : Addr) (k : MacAddress)
      (found : Found Addr)
      → from_broadcast d ≡ ok a
      → lookup_of k (add a addr found) ≡ latest (heard_in k (ok (d, addr))) (lookup_of k found)
  unfolding heard_in add
  lookup_of-add a d addr k found e =
      let h : Heard Addr = record { dac = a.dac; source_addr = addr } in
      ground (
        arith,
        e,
        lookup-insert_self MacAddress-discrete a.mac_address h found.dacs,
        lookup-insert_other MacAddress-discrete a.mac_address k h found.dacs,
      )

  -- A result on which the program does not panic.
  abbrev pub IsFine : ⦃b : Bitflags⦄ → Result IoError (DacBroadcast × Addr) → Type 0
  IsFine (err e) = is_timeout e ≡ true
  IsFine (ok (dac_broadcast, source_addr)) = (a : Addressed) × (from_broadcast dac_broadcast ≡ ok a)

  -- A round keeps the map one, and what was heard last is there.
  pub record Adds ⦃b : Bitflags⦄ (result : Result IoError (DacBroadcast × Addr))
      (found found' : Found Addr) : Type 0 where
    pub adds : add_result result found ≡ some found'
    pub map : IsMap found → IsMap found'
    pub heard :
        (k : MacAddress) (results : List (Result IoError (DacBroadcast × Addr)))
        → last_heard k (lookup_of k found) (result ∷ results)
          ≡ last_heard k (lookup_of k found') results

  add_result_lem :
      ⦃b : Bitflags⦄ (result : Result IoError (DacBroadcast × Addr)) (found : Found Addr)
      → IsFine result
      → (found' : Found Addr) × Adds result found found'
  unfolding add_result last_heard heard_in
  add_result_lem (err e) found fine =
      (found, record { adds = rw fine refl; map = λ h. h; heard = λ k results. refl })
  add_result_lem (ok (d, addr)) found (a, e) = (
    add a addr found,
    record { adds = rw (e, add_result) refl; map = add-IsMap a addr found; heard = heard },
  )
    where
      heard :
          (k : MacAddress) (results : List (Result IoError (DacBroadcast × Addr)))
          → last_heard k (lookup_of k found) (ok (d, addr) ∷ results)
            ≡ last_heard k (lookup_of k (add a addr found)) results
      heard k results = ap (λ o. last_heard k o results) (sym (lookup_of-add a d addr k found e))

  module _ {U : Type 0} (recv_from : U → Result IoError (Bytes × Addr) × U) ⦃r : ReadBytesExt Bytes⦄
      ⦃b : Bitflags⦄ where
    -- The results of `next_broadcast` until the three seconds are over.
    unfoldable pub heard :
        List ℕ → RecvDacBroadcasts U → List (Result IoError (DacBroadcast × Addr))
    heard [] rx = []
    heard (elapsed ∷ clock) rx =
        if ltb elapsed three_secs
        then (next_broadcast recv_from rx).0 ∷ heard clock (next_broadcast recv_from rx).1
        else []

    -- The clock reaches three seconds.
    abbrev pub RunsOut : List ℕ → Type 0
    RunsOut [] = ⊥
    RunsOut (elapsed ∷ clock) = (three_secs ≤ elapsed) ⊎ RunsOut clock

    goes_on :
        {elapsed : ℕ} (clock : List ℕ)
        → elapsed < three_secs
        → RunsOut (elapsed ∷ clock)
        → RunsOut clock
    goes_on clock h (inl over) = absurd (omega arith)
    goes_on clock h (inr over) = over

    -- What the search ends with.
    pub record Finds (found : Found Addr) (results : List (Result IoError (DacBroadcast × Addr)))
        (last : Found Addr) : Type 0 where
      pub map : IsMap last
      pub heard : (k : MacAddress) → lookup_of k last ≡ last_heard k (lookup_of k found) results

    search_from :
        (clock : List ℕ) (rx : RecvDacBroadcasts U) (found : Found Addr)
        → IsMap found
        → RunsOut clock
        → All IsFine (heard clock rx)
        → (last : Found Addr) × (search recv_from clock rx found ≡ finished last)
          × Finds found (heard clock rx) last
    unfolding search heard last_heard
    search_from [] rx found h over fine = absurd over
    search_from (elapsed ∷ clock) rx found h over fine =
        let result = (next_broadcast recv_from rx).0 in
        let rx' = (next_broadcast recv_from rx).1 in
        elim (Bool-cases (ltb elapsed three_secs)) [
          | inl more ↦
              let round : IsFine result × All IsFine (heard clock rx') = rw more at fine in
              let (found', a) = add_result_lem result found round.0 in
              let (last, ends, f) =
                search_from clock rx' found' (a.map h) (goes_on clock (ltb→lt _ _ more) over)
                  round.1 in
              (
                last,
                rw (more, a.adds) ends,
                rw more (record {
                  map = f.map;
                  heard = λ k. f.heard k ∙ sym (a.heard k (heard clock rx'));
                }),
              )
          | inr less ↦ (found, rw less refl, rw less (record { map = h; heard = λ k. refl }))
        ]

    -- If the clock reaches three seconds, and until then every call of `next_broadcast` yields a
    -- broadcast that `from_broadcast` accepts or a timeout, the search ends without a panic. It
    -- then has one entry for each MAC address, with what was last heard from it and from where;
    -- and it has announced each of these addresses once.
    pub search_lem :
        (clock : List ℕ) (rx : RecvDacBroadcasts U)
        → RunsOut clock
        → All IsFine (heard clock rx)
        → (last : Found Addr) × (search recv_from clock rx found_none ≡ finished last)
          × IsMap last
          × ((k : MacAddress) → lookup_of k last ≡ last_heard k none (heard clock rx))
    unfolding found_none lookup
    search_lem clock rx over fine =
        let (last, ends, f) = search_from clock rx found_none found_none-IsMap over fine in
        (last, ends, f.map, f.heard)
