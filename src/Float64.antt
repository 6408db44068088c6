-- ===== src/Float64.antt =====
-- Go's float64 as its IEEE 754 bit pattern, a number below 2 ^ 64, and the one comparison that the
-- program makes of such a value.
use investment_engine.Prelude.{ℕ, ◌^◌, Bool, ◌&&◌, ◌||◌, ◌≡◌, refl, true, false, leb, ◌==◌}

abbrev pub Float64 : Type 0
Float64 = ℕ

-- `x <= 0`: +0, or the sign bit set and not a NaN (so -0, the negative numbers and -Inf).
unfoldable pub le_zero : Float64 → Bool
le_zero x = x == 0 || leb (2 ^ 63) x && leb x 0xfff0000000000000

-- 38.42 is positive; -1.5 and both zeros are not.
le_zero_samples :
    (le_zero 0x404335c28f5c28f6 ≡ false)
    × (le_zero 0xbff8000000000000 ≡ true)
    × (le_zero 0 ≡ true)
    × (le_zero 0x8000000000000000 ≡ true)
unfolding le_zero
le_zero_samples = (refl, refl, refl, refl)
