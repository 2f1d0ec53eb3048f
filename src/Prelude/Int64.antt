-- ===== src/Prelude/Int64.antt =====
-- Go's `int` and `int64`: integers that wrap around at 64 bits.
use auklet_client_c.Prelude.{
  ℕ, ◌+◌, ◌-◌, ◌*◌, ◌/◌, ◌%◌, ◌<◌, ◌≡◌, refl, arith, ltb, if◌then◌else◌, Bool,
}
use auklet_client_c.Prelude.Int.{ℤ, pos, negsuc, ◌+ℤ◌, ◌*ℤ◌, sub_ℕ, ltb_ℤ}

abbrev pub two_63 : ℕ
two_63 = 9223372036854775808

abbrev pub two_64 : ℕ
two_64 = 18446744073709551616

-- The integer that a bit pattern stands for.
abbrev pub of_bits : ℕ → ℤ
of_bits u = if ltb u two_63 then pos u else negsuc (two_64 - 1 - u)

abbrev pub wrap64 : ℤ → ℤ
wrap64 (pos n) = of_bits (n % two_64)
wrap64 (negsuc n) = of_bits (two_64 - 1 - n % two_64)

unfoldable pub add64 : ℤ → ℤ → ℤ
add64 a b = wrap64 (a +ℤ b)

unfoldable pub mul64 : ℤ → ℤ → ℤ
mul64 a b = wrap64 (a *ℤ b)

-- Go's `/` by a positive constant: it rounds towards zero.
unfoldable pub quot64 : ℤ → ℕ → ℤ
quot64 (pos n) d = pos (n / d)
quot64 (negsuc n) d = sub_ℕ 0 ((n + 1) / d)

abbrev pub gtb64 : ℤ → ℤ → Bool
gtb64 a b = ltb_ℤ b a

pub add64-pos : (a b : ℕ) → a + b < two_63 → add64 (pos a) (pos b) ≡ pos (a + b)
unfolding add64 ◌+ℤ◌
add64-pos a b h = ground arith

pub mul64-pos : (a b : ℕ) → a * b < two_63 → mul64 (pos a) (pos b) ≡ pos (a * b)
unfolding mul64 ◌*ℤ◌
mul64-pos a b h = ground arith

mul64_wraps : mul64 (pos 1000000) (pos 9223372036855) ≡ negsuc 9223372036854551615
unfolding mul64 ◌*ℤ◌
mul64_wraps = refl
