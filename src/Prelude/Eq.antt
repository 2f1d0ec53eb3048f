-- ===== src/Prelude/Eq.antt =====
-- One operator that compares numbers or texts.
use Prim.Native.Nat.{ℕ}
use Prim.Native.String.{String}
use text.Mathlib.Text.{◌==◌ as same_text}
use text.Mathlib.TextEquality.{eq_iff}
use mathlib.Core.Path.{◌≡◌}
use mathlib.Core.Logic.{◌↔◌, inl, inr}
use mathlib.Core.Bool.{Bool, true}
use auklet_client_c.Prelude.Tests.{nat_beq, nat_beq_iff, Bool-cases}

-- A Boolean test that decides equality.
pub record HasEq (K : Type 0) : Type 0 where
  pub same : K → K → Bool
  pub same_iff : (j k : K) → (same j k ≡ true) ↔ (j ≡ k)

infix 50 ◌==◌
abbrev pub ◌==◌ : {K : Type 0} ⦃h : HasEq K⦄ → K → K → Bool
◌==◌ ⦃h⦄ = h.same

instance abbrev pub string_eq : HasEq String
string_eq = record { same_iff = eq_iff; same = same_text }

instance abbrev pub nat_eq : HasEq ℕ
nat_eq = record { same_iff = nat_beq_iff; same = nat_beq }

-- A type with such a test has decided equality.
pub HasEq-discrete : {K : Type 0} (h : HasEq K) → Discrete K
HasEq-discrete h j k = elim (Bool-cases (h.same j k)) [
  | inl e ↦ yes ((h.same_iff j k).0 e)
  | inr e ↦ no (λ same. cc (e, (h.same_iff j k).1 same))
]
