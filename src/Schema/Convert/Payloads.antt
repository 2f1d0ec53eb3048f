-- ===== src/Schema/Convert/Payloads.antt =====
-- What becomes of the agent's JSON.
use auklet_client_c.Prelude.{ℕ, ◌≡◌, refl, true, none, some, List, ok}
use auklet_client_c.Json.{
  Json, integer, array, object, Items, nil, cons, field, end, fits_int64, read_int, read_pointer,
  read_struct,
}
use auklet_client_c.Json.Struct.{pointer_json, FitsPointer}
use auklet_client_c.Schema.Payload.{
  Node, Nodes, node, leaf, callee, no_node, read_node, read_node_member, read_items, read_profile,
}
use auklet_client_c.Schema.Convert.{Codec, Ambient, Config, metadata, unmarshal, profile_of}

-- The JSON that an agent writes for a tree, and that its numbers have 64 bits.
unfoldable mutual
  pub node_json : Node → Json
  node_json (node f c n s cs) = object (
      field "functionAddress" (pointer_json f) (
        field "callSiteAddress" (integer c) (
          field "nCalls" (integer n)
            (field "nSamples" (integer s) (field "callees" (array (items_json cs)) end)))))

  pub items_json : Nodes → Items
  items_json leaf = nil
  items_json (callee n ns) = cons (node_json n) (items_json ns)

unfoldable mutual
  pub FitsNode : Node → Type 0
  FitsNode (node f c n s cs) =
      FitsPointer f
      × (fits_int64 c ≡ true)
      × (fits_int64 n ≡ true)
      × (fits_int64 s ≡ true)
      × FitsNodes cs

  pub FitsNodes : Nodes → Type 0
  FitsNodes leaf = Unit {0}
  FitsNodes (callee n ns) = FitsNode n × FitsNodes ns

mutual
  unfolding read_node node_json read_int read_pointer read_node_member FitsNode

  read_node-json : (t : Node) → FitsNode t → read_node (node_json t) no_node ≡ (t, none)
  read_node-json (node none c n s cs) (hf, hc, hn, hs, hcs) =
      rw (hc, hn, hs, read_items-json cs hcs) refl
  read_node-json (node (some f) c n s cs) (hf, hc, hn, hs, hcs) =
      rw (hf, hc, hn, hs, read_items-json cs hcs) refl

  read_items-json : (ts : Nodes) → FitsNodes ts → read_items (items_json ts) ≡ (ts, none)
  read_items-json leaf h = refl
  read_items-json (callee t ts) (h, hs) = rw (read_node-json t h, read_items-json ts hs) refl

module _ (X : Codec) (c : Config) where
  -- Bytes that are an object with only a tree, written as JSON from a tree whose numbers have 64
  -- bits, become a profile with the same tree and the current metadata.
  pub profile_of-read :
      (a : Ambient X.Metrics) (b : List ℕ) (t : Node)
      → FitsNode t
      → X.parse b ≡ ok (object (field "tree" (node_json t) end))
      → profile_of X c a b ≡ record { metadata = metadata X c a; tree = t }
  unfolding profile_of unmarshal read_profile read_struct
  profile_of-read a b t fits parsed = rw (parsed, read_node-json t fits) refl
