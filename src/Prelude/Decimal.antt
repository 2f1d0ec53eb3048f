-- ===== src/Prelude/Decimal.antt =====
-- How integers are printed.
use auklet_client_c.Prelude.{
  ℕ, zero, suc, ◌+◌, ◌/◌, ◌%◌, ◌<◌, ◌≤◌, ◌≡◌, refl, ap, arith, Bool-cases, inl, inr, String, ◌<>◌,
  if◌then◌else◌, ltb,
}
use auklet_client_c.Prelude.Int.{ℤ, pos, negsuc}

abbrev digit : ℕ → String
digit zero = "0"
digit (suc zero) = "1"
digit (suc (suc zero)) = "2"
digit (suc (suc (suc zero))) = "3"
digit (suc (suc (suc (suc zero)))) = "4"
digit (suc (suc (suc (suc (suc zero))))) = "5"
digit (suc (suc (suc (suc (suc (suc zero)))))) = "6"
digit (suc (suc (suc (suc (suc (suc (suc zero))))))) = "7"
digit (suc (suc (suc (suc (suc (suc (suc (suc zero)))))))) = "8"
digit _ = "9"

-- A digit is taken off in each round; a number has no more digits than it counts, plus one.
digits_of : ℕ → ℕ → String
digits_of zero n = ""
digits_of (suc fuel) n =
    let front = digits_of fuel (n / 10) in if ltb n 10 then digit n else front <> digit (n % 10)

-- More rounds than the number give the same text, however many they are.
digits_of-enough : (fuel more n : ℕ) → n < fuel → n < more → digits_of fuel n ≡ digits_of more n
unfolding digits_of
digits_of-enough zero more n h k = absurd (omega arith)
digits_of-enough (suc fuel) zero n h k = absurd (omega arith)
digits_of-enough (suc fuel) (suc more) n h k = elim (Bool-cases (ltb n 10)) [
  | inl small ↦ rw small refl
  | inr large ↦
      let ten : 10 ≤ n = ground arith in
      ap (λ front. if ltb n 10 then digit n else front <> digit (n % 10))
        (digits_of-enough fuel more (n / 10) (omega arith) (omega arith))
]

-- `%v` of an integer.
unfoldable pub decimal : ℤ → String
unfolding digits_of
decimal (pos n) = digits_of (suc n) n
decimal (negsuc n) = "-" <> digits_of (n + 2) (n + 1)
