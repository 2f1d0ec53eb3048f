-- ===== src/Prelude/Subsequences.antt =====
-- Lists with some members left out, and the first members of a list.
use Prim.Native.Nat.{ℕ, zero, suc, ◌≤◌, ◌<◌}
use mathlib.Core.Path.{◌≡◌, refl, ap}
use mathlib.Core.List.{List, [], ◌∷◌, ◌++◌}
use mathlib.Core.Option.{some}
use native.Mathlib.Omega.{arith}
use auklet_client_c.Prelude.Lists.{length, get_elem?, take}

-- The first list is the second with some members left out.
pub data IsSubsequence {ℓ} {A : Type ℓ} : List A → List A → Type ℓ where
  done : IsSubsequence [] []
  keep : {x : A} {xs ys : List A} → IsSubsequence xs ys → IsSubsequence (x ∷ xs) (x ∷ ys)
  drop : {y : A} {xs ys : List A} → IsSubsequence xs ys → IsSubsequence xs (y ∷ ys)

module _ {ℓ} {A : Type ℓ} where
  pub IsSubsequence-nil : (ys : List A) → IsSubsequence [] ys
  IsSubsequence-nil [] = done
  IsSubsequence-nil (y ∷ ys) = drop (IsSubsequence-nil ys)

  pub IsSubsequence-append :
      {xs ys us vs : List A}
      → IsSubsequence xs ys
      → IsSubsequence us vs
      → IsSubsequence (xs ++ us) (ys ++ vs)
  IsSubsequence-append done k = k
  IsSubsequence-append (keep h) k = keep (IsSubsequence-append h k)
  IsSubsequence-append (drop h) k = drop (IsSubsequence-append h k)

  pub IsSubsequence_trans :
      {ys zs : List A}
      → IsSubsequence ys zs
      → {xs : List A} → IsSubsequence xs ys
      → IsSubsequence xs zs
  IsSubsequence_trans done h = h
  IsSubsequence_trans (keep k) (keep h) = keep (IsSubsequence_trans k h)
  IsSubsequence_trans (keep k) (drop h) = drop (IsSubsequence_trans k h)
  IsSubsequence_trans (drop k) h = drop (IsSubsequence_trans k h)

  pub take-IsSubsequence : (n : ℕ) (xs : List A) → IsSubsequence (take n xs) xs
  take-IsSubsequence zero xs = IsSubsequence-nil xs
  take-IsSubsequence (suc n) [] = done
  take-IsSubsequence (suc n) (x ∷ xs) = keep (take-IsSubsequence n xs)

  pub take-append : (n : ℕ) (xs ys : List A) → n ≤ length xs → take n (xs ++ ys) ≡ take n xs
  take-append zero xs ys h = refl
  take-append (suc n) [] ys h = absurd (omega arith)
  take-append (suc n) (x ∷ xs) ys h = ap (λ l. x ∷ l) (take-append n xs ys (omega arith))

  pub take-suc :
      (n : ℕ) (xs : List A) (x : A)
      → get_elem? xs n ≡ some x
      → take (suc n) xs ≡ take n xs ++ (x ∷ [])
  take-suc n [] x h = cc
  take-suc zero (y ∷ ys) x h = ground arith
  take-suc (suc n) (y ∷ ys) x h = ap (λ l. y ∷ l) (take-suc n ys x h)

  pub get_elem?-lt : (n : ℕ) (xs : List A) (x : A) → get_elem? xs n ≡ some x → n < length xs
  get_elem?-lt n [] x h = cc
  get_elem?-lt zero (y ∷ ys) x h = omega arith
  get_elem?-lt (suc n) (y ∷ ys) x h = omega (arith, get_elem?-lt n ys x h)
