-- ===== src/Schema/Convert/Points.antt =====
-- What becomes of the bytes of a data point, and of errors of the reading.
use auklet_client_c.Prelude.{
  ℕ, ◌≡◌, refl, Bool, true, false, ◌&&◌, ◌||◌, not, String, Option, none, some, List, ◌==◌,
  string_eq, if◌then◌else◌,
}
use auklet_client_c.Json.{Json, null, text, Fields, field, end, generic}
use auklet_client_c.Schema.Payload.{DataPoint, RawPoint, no_metadata, read_raw_point}
use auklet_client_c.Schema.Convert.{
  Codec, Ambient, Config, metadata, unmarshal, profile_of, error_sig_of, data_point_of,
  lossless_error, point_of,
}

-- What a member named `type` sets the type to, and whether it may be read as one.
abbrev pub type_or : String → Json → String
type_or old (text s) = s
type_or old _ = old

abbrev pub is_type : Json → Bool
is_type (text s) = true
is_type null = true
is_type _ = false

-- The type that the members give, and the last payload.
abbrev pub type_in : String → Fields → String
type_in old end = old
type_in old (field k j fs) = type_in (if "type" == k then type_or old j else old) fs

abbrev pub payload_in : Option Json → Fields → Option Json
payload_in old end = old
payload_in old (field k j fs) = payload_in (if "payload" == k then some j else old) fs

-- All members named `type` are texts or null.
abbrev pub types_fit : Fields → Bool
types_fit end = true
types_fit (field k j fs) = let rest = types_fit fs in (not ("type" == k) || is_type j) && rest

abbrev pub empty_point : RawPoint
empty_point = record { type = ""; payload = none }

module _ (X : Codec) (c : Config) where
  -- The data point of members that could be read.
  abbrev pub point_with : Ambient X.Metrics → String → Option Json → DataPoint
  point_with a type none = record {
    metadata = record (metadata X c a) { error = lossless_error X c "EOF" "" };
    type = type;
    payload = null;
  }
  point_with a type (some j) = record {
    metadata = metadata X c a;
    type = type;
    payload = generic j;
  }

  -- What is read of a data point's bytes.
  abbrev pub read_point : List ℕ → RawPoint × Option String
  read_point b = unmarshal X c read_raw_point empty_point (X.decode b)

  -- Bytes whose reading as a data point's type and payload gives an error, since they do not begin
  -- with a JSON value, or with one that is neither an object nor null, or since a type in it is no
  -- text, become a data point with that error and with nothing else. A profile and an error signal of
  -- the same bytes have no error in their metadata, whatever their own reading gave: it is lost.
  pub profile_error_lost :
      (a : Ambient X.Metrics) (b : List ℕ) (e : String)
      → (read_point b).1 ≡ some e
      → ((profile_of X c a b).metadata.error ≡ "")
        × ((error_sig_of X c a b).metadata.error ≡ "")
        × (data_point_of X c a b ≡ record {
          metadata = record no_metadata { error = lossless_error X c e (X.text_of b) };
          type = "";
          payload = null;
        })
  unfolding profile_of error_sig_of data_point_of metadata
  profile_error_lost a b e bad = (refl, refl, point_of-error (read_point b) bad)
    where
      point_of-error :
          (r : RawPoint × Option String)
          → r.1 ≡ some e
          → point_of X c a b r ≡ record {
            metadata = record no_metadata { error = lossless_error X c e (X.text_of b) };
            type = "";
            payload = null;
          }
      point_of-error (raw, some d) h = cc
      point_of-error (raw, none) h = cc
