-- ===== src/Schema/Convert/Number.antt =====
-- The encoding of numbers as msgpack, of schema/convert.go: an extension that holds the text.
use auklet_client_c.Prelude.{ℕ, String, Option, none, some, List, length}

-- The encoder of the library msgpack: `ext_header` writes the head of an extension of a type and a
-- length, `write` what a value's `MarshalMsgpack` gives.
pub record Encoder : Type 1 where
  pub State : Type 0
  pub ext_header : State → ℕ → ℕ → State × Option String
  pub write : State → List ℕ → State × Option String

-- `MarshalMsgpack` of a number, which is a text.
abbrev pub marshal_number : List ℕ → List ℕ
marshal_number n = n

module _ (E : Encoder) where
  after_header : List ℕ → E.State × Option String → E.State × Option String
  after_header n (s, some e) = (s, some e)
  after_header n (s, none) = E.write s (marshal_number n)

  -- `encodeNumber`: an extension of type 0.
  unfoldable pub encode_number : List ℕ → E.State → E.State × Option String
  unfolding after_header
  encode_number n s = after_header n (E.ext_header s 0 (length n))
