-- ===== src/Device/Hash.antt =====
-- `IfaceHash` of device/device.go and the addresses that it panics at.
use auklet_client_c.Prelude.{
  ℕ, ◌+◌, ◌%◌, ◌≤◌, ◌<◌, ◌≡◌, ◌↔◌, refl, sym, ◌∙◌, Bool, true, false, none, some, List, [], ◌∷◌,
  arith, length, Bool-cases, ◌≢◌, ltb, ◌||◌, inl, inr, replicate,
}
use native.Mathlib.Decide.{dec_lt}
use auklet_client_c.Device.{hex, add_address, add_addresses, iface_hash}

-- An address of more than six bytes is among them.
abbrev pub any_long : List (List ℕ) → Bool
any_long [] = false
any_long (a ∷ more) = ltb 6 (length a) || any_long more

none-ne_some : {A : Type 0} {a : A} → none ≢ some a
none-ne_some h = cc

add_address-short :
    (sum a : List ℕ)
    → length a ≤ length sum
    → (r : List ℕ) × (add_address sum a ≡ some r) × (length r ≡ length sum)
unfolding add_address
add_address-short sum [] h = (sum, refl, refl)
add_address-short [] (k ∷ ks) h = absurd (omega arith)
add_address-short (s ∷ sum) (k ∷ ks) h =
    let rest = add_address-short sum ks (omega arith) in
    ((s + k) % 256 ∷ rest.0, rw rest.1 refl, omega (arith, rest.2))

add_address-long : (sum a : List ℕ) → length sum < length a → add_address sum a ≡ none
unfolding add_address
add_address-long sum [] h = absurd (omega arith)
add_address-long [] (k ∷ ks) h = refl
add_address-long (s ∷ sum) (k ∷ ks) h = rw (add_address-long sum ks (omega arith)) refl

add_addresses-long :
    (sum : List ℕ) (addresses : List (List ℕ))
    → length sum ≡ 6
    → any_long addresses ≡ true
    → add_addresses sum addresses ≡ none
unfolding add_addresses
add_addresses-long sum [] six h = cc
add_addresses-long sum (a ∷ more) six h = elim (dec_lt 6 (length a)) [
  | yes long ↦ rw (add_address-long sum a (omega arith), add_addresses) refl
  | no short ↦
      let first = add_address-short sum a (omega arith) in
      rw (first.1, add_addresses)
        (add_addresses-long first.0 more (omega (arith, first.2)) (ground arith))
]

add_addresses-short :
    (sum : List ℕ) (addresses : List (List ℕ))
    → length sum ≡ 6
    → any_long addresses ≡ false
    → (r : List ℕ) × (add_addresses sum addresses ≡ some r)
unfolding add_addresses
add_addresses-short sum [] six h = (sum, refl)
add_addresses-short sum (a ∷ more) six h =
    let short : length a ≤ 6 = ground arith in
    let first = add_address-short sum a (omega arith) in
    let rest = add_addresses-short first.0 more (omega (arith, first.2)) (ground arith) in
    (rest.0, rw (first.1, add_addresses) rest.1)

-- `IfaceHash` panics exactly if an interface has an address of more than six bytes.
pub iface_hash_panics :
    (addresses : List (List ℕ)) → (iface_hash addresses ≡ none) ↔ (any_long addresses ≡ true)
unfolding iface_hash
iface_hash_panics addresses = (
  λ h. elim (Bool-cases (any_long addresses)) [
    | inl long ↦ long
    | inr short ↦
        let r = add_addresses-short (replicate 6 0) addresses refl short in
        let e : iface_hash addresses ≡ some (hex r.0) = rw (r.1, iface_hash) refl in
        absurd (none-ne_some (sym h ∙ e))
  ],
  λ long. rw (add_addresses-long (replicate 6 0) addresses refl long, iface_hash) refl,
)
