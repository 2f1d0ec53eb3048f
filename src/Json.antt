-- ===== src/Json.antt =====
-- What the program uses of Go's `encoding/json`: values that were parsed, and `Unmarshal` into
-- integers, texts, pointers and structs. Member names are matched exactly.
pub mod Struct
pub mod Generic
use auklet_client_c.Prelude.{
  ℕ, ◌<◌, ◌≡◌, refl, ◌&&◌, ◌||◌, Bool, true, false, not, String, Option, none, some, List, [], ◌∷◌,
  ◌==◌, string_eq, if◌then◌else◌,
}
use auklet_client_c.Prelude.Int.{ℤ, pos, negsuc, ltb_ℤ}
use auklet_client_c.Prelude.Int64.{two_63}

-- `real` is a number that is no integer, as it is written.
mutual
  pub data Json : Type 0 where
    null : Json
    boolean : Bool → Json
    integer : ℤ → Json
    real : String → Json
    text : String → Json
    array : Items → Json
    object : Fields → Json

  pub data Items : Type 0 where
    nil : Items
    cons : Json → Items → Items

  pub data Fields : Type 0 where
    end : Fields
    field : String → Json → Fields → Fields

-- A reader changes the value that it decodes into, and may give an error; it goes on after one.
abbrev pub Reader : Type 0 → Type 0
Reader A = A → Json → A × Option String

-- The first of two errors is kept.
abbrev pub first_error : Option String → Option String → Option String
first_error none e = e
first_error (some d) e = some d

-- The error for a value of the wrong type. Go's text also names the types.
abbrev pub wrong_type : Option String
wrong_type = some "json: cannot unmarshal"

abbrev pub fits_int64 : ℤ → Bool
fits_int64 n = ltb_ℤ n (pos two_63) && not (ltb_ℤ n (negsuc 9223372036854775807))

unfoldable pub read_text : Reader String
read_text old null = (old, none)
read_text old (text s) = (s, none)
read_text old _ = (old, wrong_type)

unfoldable pub read_int : Reader ℤ
read_int old null = (old, none)
read_int old (integer n) = if fits_int64 n then (n, none) else (old, wrong_type)
read_int old _ = (old, wrong_type)

-- A pointer: null makes it nil, any other value is decoded into what it points to.
unfoldable pub read_pointer : {A : Type 0} → A → Reader A → Reader (Option A)
read_pointer zero read old null = (none, none)
read_pointer zero read none j = let (a, e) = read zero j in (some a, e)
read_pointer zero read (some old) j = let (a, e) = read old j in (some a, e)

-- The readers of a struct's fields, by their names.
abbrev pub Readers : Type 0 → Type 0
Readers A = List (String × Reader A)

module _ {A : Type 0} where
  -- A member that no field has is passed over.
  unfoldable pub read_member : Readers A → String → Reader A
  read_member [] key old j = (old, none)
  read_member ((name, read) ∷ rs) key old j =
      let other = read_member rs key old j in if name == key then read old j else other

  unfoldable pub read_members : Readers A → A × Option String → Fields → A × Option String
  unfolding read_member
  read_members rs acc end = acc
  read_members rs (old, e) (field key j fs) =
      let (new, e') = read_member rs key old j in read_members rs (new, first_error e e') fs

  unfoldable pub read_struct : Readers A → Reader A
  unfolding read_members
  read_struct rs old null = (old, none)
  read_struct rs old (object fs) = read_members rs (old, none) fs
  read_struct rs old _ = (old, wrong_type)

-- A field of a struct: how it is read out and how it is set.
abbrev pub into : {A B : Type 0} → (A → B) → (B → A → A) → Reader B → Reader A
into get put read old j = let (b, e) = read (get old) j in (put b old, e)

unfoldable pub has_member : String → Fields → Bool
has_member k end = false
has_member k (field name j fs) = k == name || has_member k fs

-- A value that is decoded into an empty interface, by a decoder with `UseNumber`: an object becomes a
-- map, in which the last of the members with one name counts.
unfoldable mutual
  unfolding has_member

  pub generic : Json → Json
  generic null = null
  generic (boolean b) = boolean b
  generic (integer n) = integer n
  generic (real r) = real r
  generic (text t) = text t
  generic (array js) = array (generic_items js)
  generic (object fs) = object (generic_fields fs)

  pub generic_items : Items → Items
  generic_items nil = nil
  generic_items (cons j js) = cons (generic j) (generic_items js)

  pub generic_fields : Fields → Fields
  generic_fields end = end
  generic_fields (field k j fs) =
      let rest = generic_fields fs in if has_member k fs then rest else field k (generic j) rest
