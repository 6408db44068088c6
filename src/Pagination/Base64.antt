-- ===== src/Pagination/Base64.antt =====
-- base64.URLEncoding of Go's encoding/base64, as internal/pagination/cursor.go uses it: 64 letters,
-- padding, and a decoder that skips line breaks and does not look at trailing bits.
use investment_engine.Prelude.{
  ℕ, ◌+◌, ◌-◌, ◌*◌, ◌/◌, ◌%◌, ◌<◌, true, false, ◌||◌, ◌&&◌, not, Option, none, some, List, [], ◌∷◌,
  All, select, ltb, leb, ◌==◌, if◌then◌else◌, ◌≡◌, refl, Text, codes, arith,
}

unfoldable pub encode_digit : ℕ → ℕ
encode_digit v =
    if ltb v 26
    then v + b'A'
    else if ltb v 52
    then v - 26 + b'a'
    else if ltb v 62
    then v - 52 + b'0'
    else if v == 62
    then b'-'
    else b'_'

unfoldable pub decode_digit : ℕ → Option ℕ
decode_digit c =
    if leb b'A' c && leb c b'Z'
    then some (c - b'A')
    else if leb b'a' c && leb c b'z'
    then some (c - b'a' + 26)
    else if leb b'0' c && leb c b'9'
    then some (c - b'0' + 52)
    else if c == b'-'
    then some 62
    else if c == b'_'
    then some 63
    else none

-- EncodeToString
unfoldable pub encode : List ℕ → Text
unfolding encode_digit
encode [] = []
encode (a ∷ []) = encode_digit (a / 4) ∷ encode_digit (a % 4 * 16) ∷ b'=' ∷ b'=' ∷ []
encode (a ∷ b ∷ []) =
    encode_digit (a / 4)
    ∷ encode_digit (a % 4 * 16 + b / 16)
    ∷ encode_digit (b % 16 * 4)
    ∷ b'='
    ∷ []
encode (a ∷ b ∷ c ∷ r) =
    encode_digit (a / 4)
    ∷ encode_digit (a % 4 * 16 + b / 16)
    ∷ encode_digit (b % 16 * 4 + c / 64)
    ∷ encode_digit (c % 64)
    ∷ encode r

abbrev one_byte : Option ℕ → Option ℕ → Option (List ℕ)
one_byte (some x) (some y) = some ((x * 4 + y / 16) ∷ [])
one_byte _ _ = none

abbrev two_bytes : Option ℕ → Option ℕ → Option ℕ → Option (List ℕ)
two_bytes (some x) (some y) (some z) = some ((x * 4 + y / 16) ∷ (y % 16 * 16 + z / 4) ∷ [])
two_bytes _ _ _ = none

abbrev three_bytes : Option ℕ → Option ℕ → Option ℕ → Option ℕ → Option (List ℕ) → Option (List ℕ)
three_bytes (some x) (some y) (some z) (some w) (some bytes) =
    some ((x * 4 + y / 16) ∷ (y % 16 * 16 + z / 4) ∷ (z % 4 * 64 + w) ∷ bytes)
three_bytes _ _ _ _ _ = none

-- Nothing may follow the padding.
abbrev at_end : Text → Option (List ℕ) → Option (List ℕ)
at_end [] bytes = bytes
at_end (c ∷ s) bytes = none

unfoldable pub decode_quanta : Text → Option (List ℕ)
unfolding decode_digit
decode_quanta [] = some []
decode_quanta (a ∷ []) = none
decode_quanta (a ∷ b ∷ []) = none
decode_quanta (a ∷ b ∷ c ∷ []) = none
decode_quanta (a ∷ b ∷ c ∷ d ∷ r) =
    let rest = decode_quanta r in
    if d == b'='
    then at_end r (
        if c == b'='
        then one_byte (decode_digit a) (decode_digit b)
        else two_bytes (decode_digit a) (decode_digit b) (decode_digit c))
    else three_bytes (decode_digit a) (decode_digit b) (decode_digit c) (decode_digit d) rest

-- DecodeString
unfoldable pub decode : Text → Option (List ℕ)
unfolding decode_quanta select
decode s = decode_quanta (select (λ c. not (c == 10 || c == 13)) s)

decode_digit-encode_digit : (v : ℕ) → v < 64 → decode_digit (encode_digit v) ≡ some v
unfolding decode_digit encode_digit
decode_digit-encode_digit v h = ground arith

-- Neither padding nor a line break.
encode_digit-pad : (v : ℕ) → v < 64 → (encode_digit v == b'=') ≡ false
unfolding encode_digit
encode_digit-pad v h = ground arith

encode_digit-line : (v : ℕ) → v < 64 → not (encode_digit v == 10 || encode_digit v == 13) ≡ true
unfolding encode_digit
encode_digit-line v h = ground arith

-- The bytes of a quantum from its digits.
bytes_of_digits :
    (a b c : ℕ)
    → a < 256
    → b < 256
    → c < 256
    → (a / 4 * 4 + (a % 4 * 16 + b / 16) / 16 ≡ a)
      × ((a % 4 * 16 + b / 16) % 16 * 16 + (b % 16 * 4 + c / 64) / 4 ≡ b)
      × ((b % 16 * 4 + c / 64) % 4 * 64 + c % 64 ≡ c)
bytes_of_digits a b c ha hb hc = (omega arith, omega arith, omega arith)

abbrev pub Bytes : List ℕ → Type 0
Bytes = All (λ b. b < 256)

decode_quanta-encode : (bs : List ℕ) → Bytes bs → decode_quanta (encode bs) ≡ some bs
unfolding decode_quanta encode
decode_quanta-encode [] h = refl
decode_quanta-encode (a ∷ []) (ha, _) =
    let e : a / 4 * 4 + a % 4 * 16 / 16 ≡ a = omega arith in
    rw
      (
        decode_digit-encode_digit (a / 4) (omega arith),
        decode_digit-encode_digit (a % 4 * 16) (omega arith),
        e,
      )
      refl
decode_quanta-encode (a ∷ b ∷ []) (ha, (hb, _)) =
    let ea : a / 4 * 4 + (a % 4 * 16 + b / 16) / 16 ≡ a = omega arith in
    let eb : (a % 4 * 16 + b / 16) % 16 * 16 + b % 16 * 4 / 4 ≡ b = omega arith in
    rw
      (
        encode_digit-pad (b % 16 * 4) (omega arith),
        decode_digit-encode_digit (a / 4) (omega arith),
        decode_digit-encode_digit (a % 4 * 16 + b / 16) (omega arith),
        decode_digit-encode_digit (b % 16 * 4) (omega arith),
        ea,
        eb,
      )
      refl
decode_quanta-encode (a ∷ b ∷ c ∷ r) (ha, (hb, (hc, h))) =
    let (ea, eb, ec) = bytes_of_digits a b c ha hb hc in
    rw
      (
        encode_digit-pad (c % 64) (omega arith),
        decode_digit-encode_digit (a / 4) (omega arith),
        decode_digit-encode_digit (a % 4 * 16 + b / 16) (omega arith),
        decode_digit-encode_digit (b % 16 * 4 + c / 64) (omega arith),
        decode_digit-encode_digit (c % 64) (omega arith),
        decode_quanta-encode r h,
        ea,
        eb,
        ec,
      )
      refl

strip-encode :
    (bs : List ℕ) → Bytes bs → select (λ c. not (c == 10 || c == 13)) (encode bs) ≡ encode bs
unfolding select encode
strip-encode [] h = refl
strip-encode (a ∷ []) (ha, _) =
    rw (encode_digit-line (a / 4) (omega arith), encode_digit-line (a % 4 * 16) (omega arith)) refl
strip-encode (a ∷ b ∷ []) (ha, (hb, _)) =
    rw
      (
        encode_digit-line (a / 4) (omega arith),
        encode_digit-line (a % 4 * 16 + b / 16) (omega arith),
        encode_digit-line (b % 16 * 4) (omega arith),
      )
      refl
strip-encode (a ∷ b ∷ c ∷ r) (ha, (hb, (hc, h))) =
    rw
      (
        encode_digit-line (a / 4) (omega arith),
        encode_digit-line (a % 4 * 16 + b / 16) (omega arith),
        encode_digit-line (b % 16 * 4 + c / 64) (omega arith),
        encode_digit-line (c % 64) (omega arith),
        strip-encode r h,
      )
      refl

-- Every list of bytes is decoded from its encoding.
pub decode-encode : (bs : List ℕ) → Bytes bs → decode (encode bs) ≡ some bs
unfolding decode
decode-encode bs h = rw (strip-encode bs h) (decode_quanta-encode bs h)

sample : decode (codes "aGk_\nLWE=") ≡ some (codes "hi?-a")
unfolding decode
sample = refl
