-- ===== src/Dac/Update.antt =====
-- `Status::update` against `Status::from_protocol`.
use ether_dream.Base.{◌≡◌, refl, ap, arith, Result, ok, err}
use ether_dream.Protocol.{DacStatus}
use ether_dream.Dac.{Status, Dac, ProtocolError}
use ether_dream.Dac.Bitflags.{Bitflags}
use ether_dream.Dac.Convert.{status_from_protocol, update, update_status}

module _ ⦃f : Bitflags⦄ (self : Status) (p : DacStatus) where
  -- What a refused update leaves: the protocol number is already overwritten, and the data source,
  -- the flags and the counters are still the old ones.
  pub record IsHalfUpdated (after : Status) : Type 0 where
    pub protocol : after.protocol ≡ p.protocol
    pub data_source : after.data_source ≡ self.data_source
    pub light_engine_flags : after.light_engine_flags ≡ self.light_engine_flags
    pub playback_flags : after.playback_flags ≡ self.playback_flags
    pub buffer_fullness : after.buffer_fullness ≡ self.buffer_fullness
    pub point_rate : after.point_rate ≡ self.point_rate
    pub point_count : after.point_count ≡ self.point_count

  update_accepted : {s : Status} → status_from_protocol p ≡ ok s → update self p ≡ (ok tt, s)
  unfolding update status_from_protocol
  update_accepted h = ground arith

  update_refused :
      {e : ProtocolError}
      → status_from_protocol p ≡ err e
      → ((update self p).0 ≡ err e) × IsHalfUpdated (update self p).1
  unfolding update status_from_protocol
  update_refused h = ground arith

-- What an update must come to, when the conversion of the wire status comes to the first argument.
abbrev pub Agrees :
    ⦃f : Bitflags⦄
    → (self : Status) (p : DacStatus) → Result ProtocolError Status
    → Result ProtocolError (Unit {0}) × Status
    → Type 0
Agrees self p (ok s) (result, after) = (result ≡ ok tt) × (after ≡ s)
Agrees self p (err e) (result, after) = (result ≡ err e) × IsHalfUpdated self p after

-- `Status::update` against `Status::from_protocol`, on every wire status. Where the conversion
-- accepts, the update succeeds and leaves exactly the status converted, whatever the status was
-- before. Where the conversion refuses, the update fails with the same error, and leaves the
-- status half updated: the protocol number is the new one, and the data source, the flags and the
-- counters are the old ones.
pub update-Agrees :
    ⦃f : Bitflags⦄ (self : Status) (p : DacStatus)
    → Agrees self p (status_from_protocol p) (update self p)
update-Agrees self p = agrees (status_from_protocol p) refl
  where
    agrees :
        (o : Result ProtocolError Status)
        → status_from_protocol p ≡ o
        → Agrees self p o (update self p)
    agrees (ok s) e =
        let same = update_accepted self p e in (ap (λ r. r.0) same, ap (λ r. r.1) same)
    agrees (err e) h = update_refused self p h

-- The same for a whole DAC, whose other fields stay.
pub update_status_lem :
    ⦃f : Bitflags⦄ (d : Dac) (p : DacStatus) {s : Status}
    → status_from_protocol p ≡ ok s
    → update_status d p ≡ (ok tt, record d { status = s })
unfolding update_status
update_status_lem d p h = rw (update_accepted d.status p h)
