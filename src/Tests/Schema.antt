-- ===== src/Tests/Schema.antt =====
-- The converter with small texts.
use auklet_client_c.Prelude.{◌++◌}
use auklet_client_c.Schema.Convert.Number.{Encoder, encode_number}
use auklet_client_c.Prelude.{ℕ, ◌≡◌, refl, none, some, List, [], ◌∷◌, Result, ok, err, string_eq}
use auklet_client_c.Prelude.Int.{pos}
use auklet_client_c.Json.{
  Json, null, integer, real, text, array, object, nil, cons, Fields, field, end, generic,
  generic_fields, has_member, read_struct, read_members, read_member, read_text,
}
use auklet_client_c.Agent.Message.{Message as AgentMessage}
use auklet_client_c.Broker.Store.Retention.{AllStored}
use auklet_client_c.Schema.Payload.{no_metadata, read_raw_point, Node, node, leaf, callee}
use auklet_client_c.Schema.Convert.{
  Codec, Ambient, Config, json, unmarshal, metadata, profile_of, error_sig_of, data_point_of,
  lossless_error,
}
use auklet_client_c.Schema.Convert.Serve.{serve}
use auklet_client_c.Schema.Convert.Serve.Output.{
  serve-AllStored, converted, replies, all_actions, with_file,
}
use auklet_client_c.Json.Generic.{value_of}
use auklet_client_c.Schema.Convert.Points.{profile_error_lost}
use auklet_client_c.Schema.Convert.Payloads.{node_json, FitsNode, profile_of-read}
use auklet_client_c.Tests.Disk.{disk, disk-IsLawful, persistor, two_files}

-- Every text but the empty one is read as the value `j`.
abbrev read_as : Json → List ℕ → Result Json
read_as j [] = err "EOF"
read_as j (b ∷ bs) = ok j

abbrev pub codec : Json → Codec
codec j = record {
  Metrics = ℕ;
  parse = read_as j;
  decode = read_as j;
  text_of = λ b. "";
  quote = λ s. s;
  marshal = λ e v. (7 ∷ 8 ∷ [], none);
}

abbrev pub config : Config
config = record {
  username = "u";
  user_version = "1";
  app_id = "app";
  mac_hash = "00";
  encoding = json;
  client_version = "2";
}

abbrev pub now : Ambient ℕ
now = record {
  agent_version = "3";
  check_sum = "ab";
  exit_status = pos 1;
  signal = "";
  ip = "10.0.0.1";
  uuid = "id";
  now_milli = pos 1500;
  metrics = 5;
}

abbrev pub point_json : Json
point_json = object (
    field "type" (text "generic") (field "payload" (array (cons (real "1.5") (cons null nil))) end))

abbrev messages : List (Ambient ℕ × AgentMessage)
messages =
    (now, record { type = "datapoint"; raw_data = 1 ∷ [] })
    ∷ (now, record { type = "applog"; raw_data = 1 ∷ [] })
    ∷ (now, record { type = "what"; raw_data = 1 ∷ [] })
    ∷ []

abbrev tree : Node
tree =
    node none (pos 0) (pos 1) (pos 2)
      (callee (node (some (pos 64)) (pos 128) (pos 1) (pos 1) leaf) leaf)

serve-AllStored_example :
    let w =
      serve
        (codec point_json)
        disk
        config
        messages
        (record { persistor = some persistor; fs = two_files; actions = [] }) in
    let sent =
      replies
        (codec point_json)
        disk
        config
        persistor
        (converted (codec point_json) disk config messages)
        two_files in
    (w.actions ≡ all_actions (codec point_json) disk config sent)
    × AllStored disk w.fs (with_file sent)
serve-AllStored_example =
    serve-AllStored (codec point_json) disk config disk-IsLawful messages persistor two_files

-- A type that is no text.
abbrev bad_point : Json
bad_point = object (field "type" (integer (pos 5)) end)

profile_error_lost_example :
    ((profile_of (codec bad_point) config now (1 ∷ [])).metadata.error ≡ "")
    × ((error_sig_of (codec bad_point) config now (1 ∷ [])).metadata.error ≡ "")
    × (data_point_of (codec bad_point) config now (1 ∷ []) ≡ record {
      metadata = record no_metadata {
        error =
            lossless_error
              (codec bad_point)
              config
              "json: cannot unmarshal"
              ((codec bad_point).text_of (1 ∷ []));
      };
      type = "";
      payload = null;
    })
unfolding read_raw_point read_struct read_members read_member read_text unmarshal
profile_error_lost_example =
    profile_error_lost (codec bad_point) config now (1 ∷ []) "json: cannot unmarshal" refl

profile_of-read_example :
    profile_of (codec (object (field "tree" (node_json tree) end))) config now (1 ∷ []) ≡ record {
      metadata = metadata (codec (object (field "tree" (node_json tree) end))) config now;
      tree = tree;
    }
unfolding FitsNode
profile_of-read_example =
    profile_of-read (codec (object (field "tree" (node_json tree) end))) config now (1 ∷ []) tree
      (tt, refl, refl, refl, ((refl, refl, refl, refl, tt), tt)) refl

-- The payload has two members with one name.
abbrev point_members : Fields
point_members = field "extra" null (
    field "type" (text "generic")
      (field "payload" (object (field "a" null (field "a" (real "1.5") end))) end))

value_of_test :
    value_of "a" (generic_fields (field "a" null (field "a" (real "1.5") end))) ≡ some (real "1.5")
unfolding generic_fields generic has_member
value_of_test = refl

-- An encoder to a row of bytes, which writes the head of an extension of up to 255 bytes.
abbrev bytes_encoder : Encoder
bytes_encoder = record {
  State = List ℕ;
  ext_header = λ s type n. (s ++ (199 ∷ n ∷ type ∷ []), none);
  write = λ s b. (s ++ b, none);
}

encode_number_test :
    encode_number bytes_encoder (49 ∷ 46 ∷ 53 ∷ []) [] ≡ (199 ∷ 3 ∷ 0 ∷ 49 ∷ 46 ∷ 53 ∷ [], none)
unfolding encode_number
encode_number_test = refl
