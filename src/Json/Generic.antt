-- ===== src/Json/Generic.antt =====
-- Values decoded into an empty interface: what is found under a name.
use auklet_client_c.Prelude.{
  ◌≡◌, refl, sym, ap, ◌∙◌, Bool, true, false, ◌||◌, String, Option, none, some, ◌==◌, string_eq,
  eq_iff, Bool-cases, inl, inr, if◌then◌else◌,
}
use mathlib.Core.Option
use auklet_client_c.Json.{Json, Fields, end, field, has_member, generic, generic_fields}

-- The value under a name in a map, and the last of the members with a name.
abbrev pub value_of : String → Fields → Option Json
value_of k end = none
value_of k (field name j fs) = let rest = value_of k fs in if k == name then some j else rest

abbrev or_else : Option Json → Option Json → Option Json
or_else none o = o
or_else (some j) o = some j

abbrev pub last_member : String → Fields → Option Json
last_member k end = none
last_member k (field name j fs) = or_else (last_member k fs) (if k == name then some j else none)

abbrev is_some : Option Json → Bool
is_some none = false
is_some (some j) = true

is_some-or_else : (a b : Option Json) → is_some (or_else a b) ≡ (is_some b || is_some a)
is_some-or_else none none = refl
is_some-or_else none (some j) = refl
is_some-or_else (some i) none = refl
is_some-or_else (some i) (some j) = refl

has_member-last_member : (k : String) (fs : Fields) → has_member k fs ≡ is_some (last_member k fs)
unfolding has_member
has_member-last_member k end = refl
has_member-last_member k (field name j fs) = elim (Bool-cases (k == name)) [
  | inl e ↦ rw (has_member-last_member k fs, e) (sym (is_some-or_else (last_member k fs) (some j)))
  | inr e ↦ rw (has_member-last_member k fs, e) (sym (is_some-or_else (last_member k fs) none))
]

or_else-some : (a b : Option Json) → is_some a ≡ true → or_else a b ≡ a
or_else-some none b h = cc
or_else-some (some j) b h = refl

or_else-none : (a b : Option Json) → is_some a ≡ false → or_else a b ≡ b
or_else-none none b h = refl
or_else-none (some j) b h = cc

none-or_else : (a : Option Json) → or_else a none ≡ a
none-or_else none = refl
none-or_else (some j) = refl

-- What a member and the rest give, when the map of the rest is known: `has` is whether the rest has
-- the member's name, `same` whether it is the name that is looked up.
join :
    (same has : Bool) (last kept : Option Json) (j : Json)
    → kept ≡ Option.map generic last
    → (same ≡ true → has ≡ is_some last)
    → (if has then kept else if same then some (generic j) else kept)
      ≡ Option.map generic (or_else last (if same then some j else none))
join true true last kept j h s =
    h ∙ ap (Option.map generic) (sym (or_else-some last (some j) (sym (s refl))))
join true false last kept j h s =
    ap (Option.map generic) (sym (or_else-none last (some j) (sym (s refl))))
join false true last kept j h s = h ∙ ap (Option.map generic) (sym (none-or_else last))
join false false last kept j h s = h ∙ ap (Option.map generic) (sym (none-or_else last))

value_of-if :
    (k : String) (b : Bool) (f g : Fields)
    → value_of k (if b then f else g) ≡ (if b then value_of k f else value_of k g)
value_of-if k true f g = refl
value_of-if k false f g = refl

-- Under each name, the map has the last of the members with that name, decoded in the same way.
pub value_of-generic_fields :
    (k : String) (fs : Fields)
    → value_of k (generic_fields fs) ≡ Option.map generic (last_member k fs)
unfolding generic_fields
value_of-generic_fields k end = refl
value_of-generic_fields k (field name j fs) =
    value_of-if k (has_member name fs) (generic_fields fs)
      (field name (generic j) (generic_fields fs))
    ∙ join (k == name) (has_member name fs) (last_member k fs) (value_of k (generic_fields fs)) j
        (value_of-generic_fields k fs)
        (λ same.
          ap (λ n. has_member n fs) (sym ((eq_iff k name).0 same)) ∙ has_member-last_member k fs)
