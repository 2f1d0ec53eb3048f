-- ===== src/Client/Licenses.antt =====
-- `licenses` of cmd/client/main.go: what is printed of the licenses in a box of files.
use Prim.Native.String.{find, slice, len}
use auklet_client_c.Prelude.{◌+◌, ◌<>◌, String, List, [], ◌∷◌, ltb, ◌==◌, string_eq, if◌then◌else◌}

-- `strings.Replace` of the first occurrence, if there is one.
unfoldable pub replace_first : String → String → String → String
replace_first s old new =
    let i = find s old in
    if ltb (len s) i then s else slice s 0 i <> (new <> slice s (i + len old) (len s))

-- The files of a box: their names, and what a name gives.
pub record Box : Type 0 where
  pub names : List String
  pub content : String → String

unfoldable pub license_text : String → String → String
license_text name content = "License for " <> (name <> ("\n-------------------------\n" <> content))

module _ (b : Box) where
  -- The loop over the names. A file stands for its package, "/" being "--" in its name.
  unfoldable pub other_licenses : List String → String
  other_licenses [] = ""
  other_licenses (l ∷ ls) =
      let rest = other_licenses ls in
      if l == "LICENSE"
      then rest
      else ("\n\n\n" <> license_text ("package: " <> replace_first l "--" "/") (b.content l))
        <> rest

  -- All that is printed.
  unfoldable pub licenses : String
  licenses = license_text "Auklet Client" (b.content "LICENSE") <> other_licenses b.names
