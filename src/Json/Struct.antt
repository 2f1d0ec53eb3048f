-- ===== src/Json/Struct.antt =====
-- Values that are written and read back.
use auklet_client_c.Prelude.{◌≡◌, true, Option, none, some}
use auklet_client_c.Prelude.Int.{ℤ}
use auklet_client_c.Json.{Json, null, integer, fits_int64}

-- A pointer to an integer, as it is written.
abbrev pub pointer_json : Option ℤ → Json
pointer_json none = null
pointer_json (some n) = integer n

abbrev pub FitsPointer : Option ℤ → Type 0
FitsPointer none = Unit {0}
FitsPointer (some n) = fits_int64 n ≡ true
