-- ===== src/Strings.antt =====
-- What the program uses of Go's packages strings, strconv and regexp.
use investment_engine.Prelude.{
  ℕ, ◌+◌, ◌-◌, ◌*◌, ◌^◌, ℤ, pos, negsuc, Bool, ◌&&◌, ◌||◌, Option, none, some, [], ◌∷◌, map, ◌≡◌,
  refl, Text, codes, ltb, leb, ◌==◌, if◌then◌else◌,
}
use mathlib.Core.List.{reverse}

unfoldable pub is_digit : ℕ → Bool
is_digit c = leb b'0' c && leb c b'9'

unfoldable pub is_upper_letter : ℕ → Bool
is_upper_letter c = leb b'A' c && leb c b'Z'

-- unicode.ToUpper: the argument `upper` is the table of the runes from 128 on.
unfoldable pub to_upper_rune : (ℕ → ℕ) → ℕ → ℕ
to_upper_rune upper c =
    if ltb c 128 then if leb b'a' c && leb c b'z' then c - 32 else c else upper c

-- strings.ToUpper
unfoldable pub to_upper : (ℕ → ℕ) → Text → Text
unfolding to_upper_rune
to_upper upper = map (to_upper_rune upper)

-- unicode.ToLower, with its table from 128 on, and strings.ToLower
unfoldable pub to_lower_rune : (ℕ → ℕ) → ℕ → ℕ
to_lower_rune lower c =
    if ltb c 128 then if leb b'A' c && leb c b'Z' then c + 32 else c else lower c

unfoldable pub to_lower : (ℕ → ℕ) → Text → Text
unfolding to_lower_rune
to_lower lower = map (to_lower_rune lower)

-- unicode.IsSpace
unfoldable pub is_space : ℕ → Bool
is_space c =
    leb 9 c && leb c 13
    || c == 32
    || c == 0x85
    || c == 0xa0
    || c == 0x1680
    || leb 0x2000 c && leb c 0x200a
    || c == 0x2028
    || c == 0x2029
    || c == 0x202f
    || c == 0x205f
    || c == 0x3000

unfoldable pub trim_left : Text → Text
unfolding is_space
trim_left [] = []
trim_left (c ∷ s) = let rest = trim_left s in if is_space c then rest else c ∷ s

-- strings.TrimSpace
unfoldable pub trim_space : Text → Text
unfolding trim_left
trim_space s = reverse (trim_left (reverse (trim_left s)))

-- strconv.Atoi: an optional sign, then digits, within the range of a 64-bit int.
unfoldable pub digits_value : ℕ → Text → Option ℕ
unfolding is_digit
digits_value n [] = some n
digits_value n (c ∷ s) =
    let rest = digits_value (n * 10 + (c - b'0')) s in if is_digit c then rest else none

abbrev parse_digits : Text → Option ℕ
parse_digits [] = none
parse_digits (c ∷ s) = digits_value 0 (c ∷ s)

abbrev positive_int : Option ℕ → Option ℤ
positive_int none = none
positive_int (some n) = if ltb n (2 ^ 63) then some (pos n) else none

abbrev negate : ℕ → ℤ
negate n = if n == 0 then pos 0 else negsuc (n - 1)

abbrev negative_int : Option ℕ → Option ℤ
negative_int none = none
negative_int (some n) = if leb n (2 ^ 63) then some (negate n) else none

unfoldable pub atoi : Text → Option ℤ
unfolding digits_value
atoi [] = none
atoi (c ∷ s) =
    if c == b'+'
    then positive_int (parse_digits s)
    else if c == b'-'
    then negative_int (parse_digits s)
    else positive_int (parse_digits (c ∷ s))

atoi_samples :
    (atoi (codes "20") ≡ some (pos 20))
    × (atoi (codes "-3") ≡ some (negsuc 2))
    × (atoi (codes "1x") ≡ none)
    × (atoi (codes "9223372036854775808") ≡ none)
    × (atoi (codes "+") ≡ none)
unfolding atoi
atoi_samples = (refl, refl, refl, refl, refl)

trim_sample : trim_space (codes "  petr4 ") ≡ codes "petr4"
unfolding trim_space
trim_sample = refl
