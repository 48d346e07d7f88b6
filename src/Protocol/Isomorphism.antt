-- ===== src/Protocol/Isomorphism.antt =====
-- The wire structures and the byte strings of their size are the same things, through the readers
-- and writers.
use std.Equiv.{Iso}
use std.HLevel.{Σ_prop_path}
use native.Mathlib.Bridge.{le_prop}
use native.Mathlib.Nat.{ℕ_set}
use ether_dream.Base.{
  ℕ, ◌≡◌, ◌∙◌, sym, ap, arith, [], ◌∷◌, ◌++◌, length, drop, drop-all, All, All-append, append-nil,
}
use ether_dream.Base.Int.{ℤ, pos, negsuc, IsI16}
use ether_dream.Io.{Io, IoResult, ok}
use ether_dream.Io.Bytes.{Bytes, IsByte, le_bytes-IsByte}
use ether_dream.Io.Reader.{ReadBytesExt, ReadsLittleEndian}
use ether_dream.Io.Writer.{WriteBytesExt, WritesLittleEndian}
use ether_dream.Io.Slice.{slice_read, vec_write}
use ether_dream.Io.Codec.{Reads, Takes, Writes, Reads-length}
use ether_dream.Io.Spell.{Spells}
use ether_dream.Protocol.{
  DacStatus, DacPoint, DacBroadcast, DacResponse, dac_status_size_bytes, dac_point_size_bytes,
  dac_broadcast_size_bytes, dac_response_size_bytes,
}
use ether_dream.Protocol.Layout.{
  status_bytes, point_bytes, broadcast_bytes, response_bytes, IsStatus, IsPoint, IsBroadcast,
  IsResponse,
}
use ether_dream.Protocol.Encode.{
  write_dac_status, write_dac_point, write_dac_broadcast, write_dac_response,
}
use ether_dream.Protocol.Decode.{
  read_dac_status, read_dac_point, read_dac_broadcast, read_dac_response,
}
use ether_dream.Protocol.RoundTrip.{
  Reads-status, Reads-point, Reads-broadcast, Reads-response, Takes-status, Takes-point,
  Takes-broadcast, Takes-response, Writes-status, Writes-point, Writes-broadcast, Writes-response,
}
use ether_dream.Protocol.Spelling.{
  IsSpelling, Spells-read_dac_status, Spells-read_dac_point, Spells-read_dac_broadcast,
  Spells-read_dac_response,
}

-- Strings of `n` bytes.
abbrev pub BytesOf : ℕ → Type 0
BytesOf n = (bs : Bytes) × (All IsByte bs × (length bs ≡ n))

abbrev pub InRange : {A : Type 0} → (A → Type 0) → Type 0
InRange {A} In = (a : A) × In a

-- Values in range and strings of `n` bytes correspond one to one: `m` writes the bytes of a value,
-- and `p` reads the value of bytes, whatever comes behind them.
pub record Codec {A : Type 0} (p : Io Bytes A) (m : A → Io Bytes (Unit {0})) (In : A → Type 0)
    (n : ℕ) : Type 0 where
  pub iso : Iso (InRange In) (BytesOf n)
  pub writes : (v : InRange In) → m v.0 [] ≡ ok (tt, (iso.fun v).0)
  pub reads : (w : BytesOf n) (rest : Bytes) → p (w.0 ++ rest) ≡ ok ((iso.inv w).0, rest)

All-IsByte-prop : (bs : Bytes) → IsProp (All IsByte bs)
All-IsByte-prop [] = hlevel
All-IsByte-prop (b ∷ bs) = hlevel (le_prop, All-IsByte-prop bs)

BytesOf-prop : (n : ℕ) (bs : Bytes) → IsProp (All IsByte bs × (length bs ≡ n))
BytesOf-prop n bs = hlevel (All-IsByte-prop bs, ℕ_set)

module _ {A : Type 0} {In : A → Type 0} {n : ℕ} (p : Io Bytes A) (m : A → Io Bytes (Unit {0}))
    (enc : A → Bytes) (In-prop : (a : A) → IsProp (In a))
    (enc-IsByte : (a : A) → All IsByte (enc a)) (hr : (a : A) → In a → Reads p (enc a) a)
    (ht : Takes p n) (hs : Spells p (IsSpelling enc In))
    (hw : (a : A) → Writes vec_write (m a) (enc a)) where
  encode : InRange In → BytesOf n
  encode v = (enc v.0, (enc-IsByte v.0, Reads-length (hr v.0 v.1) ht))

  -- What bytes of the right number are read as.
  record Decoded (w : BytesOf n) : Type 0 where
    value : A
    in_range : In value
    same : w.0 ≡ enc value

  decode : (w : BytesOf n) → Decoded w
  decode (bs, (bytes, sized)) =
      let (a, e) = ht.enough bs (omega (arith, sized)) in
      let (cs, split, (in_range, written), others) = hs.at bs bytes e in
      let behind : cs ++ drop n bs ≡ cs =
        ap (λ t. cs ++ t) (drop-all n bs (omega (arith, sized))) ∙ append-nil cs in
      record { value = a; in_range = in_range; same = split ∙ behind ∙ written }

  -- An encoding determines the value.
  encoded_once : (a b : A) → In a → In b → enc a ≡ enc b → a ≡ b
  encoded_once a b ha hb e =
      let first = (hr a ha).at [] in
      let second = (hr b hb).at [] in
      let both : ◌≡◌ {A = IoResult (A × Bytes)} (ok (a, [])) (ok (b, [])) = cc (first, second, e) in
      cc

  codec : Codec p m In n
  unfolding encode
  codec = record {
    iso = record {
      fun = encode;
      inv = λ w. ((decode w).value, (decode w).in_range);
      rinv = λ w.
          let d = decode w in
          Σ_prop_path (BytesOf-prop n) {u = encode (d.value, d.in_range)} {v = w} (sym d.same);
      linv = λ v.
          let d = decode (encode v) in
          Σ_prop_path In-prop (encoded_once d.value v.0 d.in_range v.1 (sym d.same));
    };
    writes = λ v. (hw v.0).at [];
    reads = λ w rest.
        let d = decode w in ap (λ bs. p (bs ++ rest)) d.same ∙ (hr d.value d.in_range).at rest;
  }

IsI16-prop : (x : ℤ) → IsProp (IsI16 x)
IsI16-prop (pos n) = hlevel le_prop
IsI16-prop (negsuc n) = hlevel le_prop

status_bytes-IsByte : (s : DacStatus) → All IsByte (status_bytes s)
unfolding status_bytes
status_bytes-IsByte s = search (All-append, le_bytes-IsByte) depth 14

IsStatus-prop : (s : DacStatus) → IsProp (IsStatus s)
IsStatus-prop s = hlevel le_prop

IsBroadcast-prop : (d : DacBroadcast) → IsProp (IsBroadcast d)
IsBroadcast-prop d = hlevel (le_prop, IsStatus-prop)

broadcast_bytes-IsByte : (d : DacBroadcast) → All IsByte (broadcast_bytes d)
unfolding broadcast_bytes
broadcast_bytes-IsByte d = search (All-append, le_bytes-IsByte, status_bytes-IsByte) depth 14

IsPoint-prop : (p : DacPoint) → IsProp (IsPoint p)
IsPoint-prop p = hlevel (le_prop, IsI16-prop)

point_bytes-IsByte : (p : DacPoint) → All IsByte (point_bytes p)
unfolding point_bytes
point_bytes-IsByte p = search (All-append, le_bytes-IsByte) depth 14

IsResponse-prop : (d : DacResponse) → IsProp (IsResponse d)
IsResponse-prop d = hlevel (le_prop, IsStatus-prop)

pub response_bytes-IsByte : (d : DacResponse) → All IsByte (response_bytes d)
unfolding response_bytes
response_bytes-IsByte d = search (All-append, le_bytes-IsByte, status_bytes-IsByte) depth 14

module _ ⦃r : ReadBytesExt Bytes⦄ ⦃w : WriteBytesExt Bytes⦄ (reads : ReadsLittleEndian slice_read r)
    (writes : WritesLittleEndian vec_write w) where
  -- Statuses, points, broadcasts and responses with their fields in range are isomorphic to the
  -- strings of `SIZE_BYTES` bytes: the writer puts out the bytes of a value, and the reader takes
  -- any such string, whatever comes behind it, for the value that it is the bytes of; the
  -- `byteorder` methods being little endian as documented.
  pub Codec-structures :
      Codec read_dac_status write_dac_status IsStatus dac_status_size_bytes
      × Codec read_dac_point write_dac_point IsPoint dac_point_size_bytes
      × Codec read_dac_broadcast write_dac_broadcast IsBroadcast dac_broadcast_size_bytes
      × Codec read_dac_response write_dac_response IsResponse dac_response_size_bytes
  Codec-structures = (
    codec _ _ status_bytes IsStatus-prop status_bytes-IsByte (Reads-status reads)
        (Takes-status reads) (Spells-read_dac_status reads) (Writes-status writes),
    codec _ _ point_bytes IsPoint-prop point_bytes-IsByte (Reads-point reads) (Takes-point reads)
        (Spells-read_dac_point reads) (Writes-point writes),
    codec _ _ broadcast_bytes IsBroadcast-prop broadcast_bytes-IsByte (Reads-broadcast reads)
        (Takes-broadcast reads) (Spells-read_dac_broadcast reads) (Writes-broadcast writes),
    codec _ _ response_bytes IsResponse-prop response_bytes-IsByte (Reads-response reads)
        (Takes-response reads) (Spells-read_dac_response reads) (Writes-response writes),
  )
