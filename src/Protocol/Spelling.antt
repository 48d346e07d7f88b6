-- ===== src/Protocol/Spelling.antt =====
-- The structures' readers take exactly the layout of what they return.
use ether_dream.Base.{◌≡◌, ◌++◌}
use ether_dream.Io.{Io, ◌>>=◌}
use ether_dream.Io.Bytes.{Bytes}
use ether_dream.Io.Reader.{ReadBytesExt, ReadsLittleEndian}
use ether_dream.Io.Slice.{slice_read}
use ether_dream.Io.Spell.{Spells, written_then, spells_rules}
use ether_dream.Protocol.{DacStatus}
use ether_dream.Protocol.Layout.{
  status_bytes, broadcast_bytes, point_bytes, response_bytes, IsStatus, IsBroadcast, IsPoint,
  IsResponse,
}
use ether_dream.Protocol.Decode.{
  read_dac_status, read_dac_broadcast, read_dac_point, read_dac_response,
}

-- The bytes of a value in range.
abbrev pub IsSpelling : {A : Type 0} → (A → Bytes) → (A → Type 0) → Bytes → A → Type 0
IsSpelling enc In bs a = In a × (bs ≡ enc a)

module _ ⦃r : ReadBytesExt Bytes⦄ (le : ReadsLittleEndian slice_read r) where
  pub Spells-read_dac_status : Spells read_dac_status (IsSpelling status_bytes IsStatus)
  unfolding read_dac_status status_bytes
  Spells-read_dac_status = search spells_rules depth 30

  Spells-status_then :
      {B : Type 0} {Q : Bytes → B → Type 0} (f : DacStatus → Io Bytes B)
      → ((s : DacStatus) → IsStatus s → Spells (f s) (λ cs b. Q (status_bytes s ++ cs) b))
      → Spells (read_dac_status >>= f) Q
  Spells-status_then f h = written_then le read_dac_status f Spells-read_dac_status h

  pub Spells-read_dac_point : Spells read_dac_point (IsSpelling point_bytes IsPoint)
  unfolding read_dac_point point_bytes
  Spells-read_dac_point = search spells_rules depth 30

  pub Spells-read_dac_broadcast : Spells read_dac_broadcast (IsSpelling broadcast_bytes IsBroadcast)
  unfolding read_dac_broadcast broadcast_bytes
  Spells-read_dac_broadcast = search (spells_rules, Spells-status_then) depth 30

  pub Spells-read_dac_response : Spells read_dac_response (IsSpelling response_bytes IsResponse)
  unfolding read_dac_response response_bytes
  Spells-read_dac_response = search (spells_rules, Spells-status_then) depth 30
