-- ===== src/Dac/Mac.antt =====
-- `MacAddress` of ether-dream/src/dac/mod.rs: its conversions from and to `[u8; 6]`, and the text
-- that `Display` writes, as the codes of its characters.
use ether_dream.Base.{
  ℕ, ◌+◌, ◌-◌, ◌*◌, ◌/◌, ◌%◌, ◌<◌, ◌≡◌, refl, arith, List, [], ◌∷◌, ◌++◌, ltb, leb, ◌==◌,
  if◌then◌else◌, false, Bool-cases, inl, inr, ap, sym, ◌∙◌, append-nil,
}
use ether_dream.Protocol.{MacBytes}
use ether_dream.Protocol.Layout.{IsMac}
use ether_dream.Dac.{MacAddress}

-- `From<[u8; 6]>` and `Into<[u8; 6]>`.
unfoldable pub mac_from : MacBytes → MacAddress
mac_from bytes = record { bytes = bytes }

unfoldable pub mac_into : MacAddress → MacBytes
mac_into m = m.bytes

unfoldable pub upper_hex_digit : ℕ → ℕ
upper_hex_digit d = if ltb d 10 then b'0' + d else b'A' + (d - 10)

-- The standard library's `{:X}` at a `u8`: upper case, and no leading zero.
unfoldable pub upper_hex : ℕ → List ℕ
unfolding upper_hex_digit
upper_hex n =
    if ltb n 16
    then upper_hex_digit n ∷ []
    else upper_hex_digit (n / 16) ∷ upper_hex_digit (n % 16) ∷ []

unfoldable pub mac_display : MacAddress → List ℕ
mac_display m =
    upper_hex m.bytes.b0
    ++ b':'
      ∷ (upper_hex m.bytes.b1
          ++ b':'
            ∷ (upper_hex m.bytes.b2
                ++ b':'
                  ∷ (upper_hex m.bytes.b3
                      ++ b':' ∷ (upper_hex m.bytes.b4 ++ b':' ∷ upper_hex m.bytes.b5))))

-- A reader of that text, to state that no two addresses print alike.
digit_value : ℕ → ℕ
digit_value c = if leb c b'9' then c - b'0' else c - b'A' + 10

hex_value : ℕ → List ℕ → ℕ × List ℕ
hex_value n [] = (n, [])
hex_value n (c ∷ cs) = if c == b':' then (n, cs) else hex_value (n * 16 + digit_value c) cs

digit_value-upper_hex_digit :
    (d : ℕ) → d < 16 → (digit_value (upper_hex_digit d) ≡ d) × ((upper_hex_digit d == b':') ≡ false)
unfolding digit_value upper_hex_digit
digit_value-upper_hex_digit d h = ground arith

-- One round of the reader on a digit.
hex_value-digit :
    (n d : ℕ) (rest : List ℕ)
    → d < 16
    → hex_value n (upper_hex_digit d ∷ rest) ≡ hex_value (n * 16 + d) rest
unfolding hex_value
hex_value-digit n d rest h =
    let (value, plain) = digit_value-upper_hex_digit d h in rw (plain, value)

hex_value-upper_hex :
    (n : ℕ) (rest : List ℕ) → n < 256 → hex_value 0 (upper_hex n ++ rest) ≡ hex_value n rest
unfolding upper_hex
hex_value-upper_hex n rest h = elim (Bool-cases (ltb n 16)) [
  | inl small ↦
      rw small (hex_value-digit 0 n rest (ground arith) ∙ ap (λ k. hex_value k rest) (omega arith))
  | inr large ↦ rw large (
      hex_value-digit 0 (n / 16) (upper_hex_digit (n % 16) ∷ rest) (omega arith)
      ∙ hex_value-digit (0 * 16 + n / 16) (n % 16) rest (omega arith)
      ∙ ap (λ k. hex_value k rest) (omega arith))
]

hex_value-colon : (n : ℕ) (rest : List ℕ) → hex_value n (b':' ∷ rest) ≡ (n, rest)
unfolding hex_value
hex_value-colon n rest = refl

hex_value-nil : (n : ℕ) → hex_value n [] ≡ (n, [])
unfolding hex_value
hex_value-nil n = refl

hex_value-field :
    (n : ℕ) (rest : List ℕ) → n < 256 → hex_value 0 (upper_hex n ++ b':' ∷ rest) ≡ (n, rest)
hex_value-field n rest h = hex_value-upper_hex n (b':' ∷ rest) h ∙ hex_value-colon n rest

hex_value-last : (n : ℕ) → n < 256 → hex_value 0 (upper_hex n) ≡ (n, [])
hex_value-last n h =
    ap (hex_value 0) (sym (append-nil (upper_hex n))) ∙ hex_value-upper_hex n [] h ∙ hex_value-nil n

read_mac : List ℕ → MacBytes
read_mac text =
    let f0 = hex_value 0 text in
    let f1 = hex_value 0 f0.1 in
    let f2 = hex_value 0 f1.1 in
    let f3 = hex_value 0 f2.1 in
    let f4 = hex_value 0 f3.1 in
    let f5 = hex_value 0 f4.1 in
    record { b0 = f0.0; b1 = f1.0; b2 = f2.0; b3 = f3.0; b4 = f4.0; b5 = f5.0 }

read_mac-mac_display : (m : MacAddress) → IsMac m.bytes → read_mac (mac_display m) ≡ m.bytes
unfolding read_mac mac_display
read_mac-mac_display m h = rw (
  hex_value-field m.bytes.b0 _ h.b0,
  hex_value-field m.bytes.b1 _ h.b1,
  hex_value-field m.bytes.b2 _ h.b2,
  hex_value-field m.bytes.b3 _ h.b3,
  hex_value-field m.bytes.b4 _ h.b4,
  hex_value-last m.bytes.b5 h.b5,
)

-- Two MAC addresses of byte values that are displayed alike are the same, though the digits are
-- not padded.
pub mac_display-injective :
    (m n : MacAddress) → IsMac m.bytes → IsMac n.bytes → mac_display m ≡ mac_display n → m ≡ n
unfolding mac_from
mac_display-injective m n hm hn e =
    ap mac_from (sym (read_mac-mac_display m hm) ∙ ap read_mac e ∙ read_mac-mac_display n hn)
