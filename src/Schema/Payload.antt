-- ===== src/Schema/Payload.antt =====
-- The payload types of schema/schema.go, and how the agent's JSON is read into them.
use auklet_client_c.Prelude.{
  String, Option, none, some, List, [], ◌∷◌, ◌==◌, string_eq, if◌then◌else◌,
}
use auklet_client_c.Prelude.Int.{ℤ, pos}
use auklet_client_c.Json.{
  Json, null, boolean, integer, real, text, array, object, Items, nil, cons, Fields, end, field,
  Reader, Readers, into, read_text, read_int, read_pointer, read_struct, wrong_type, first_error,
}

pub record Metadata : Type 0 where
  pub version : String
  pub username : String
  pub client_version : String
  pub agent_version : String
  pub app_id : String
  pub check_sum : String
  pub mac_hash : String
  pub ip : String
  pub uuid : String
  pub time : ℤ
  pub error : String

abbrev pub no_metadata : Metadata
no_metadata = record {
  version = "";
  username = "";
  client_version = "";
  agent_version = "";
  app_id = "";
  check_sum = "";
  mac_hash = "";
  ip = "";
  uuid = "";
  time = pos 0;
  error = "";
}

-- `node`: the function and call site addresses, the calls and samples, the callees.
mutual
  pub data Node : Type 0 where
    node : Option ℤ → ℤ → ℤ → ℤ → Nodes → Node

  pub data Nodes : Type 0 where
    leaf : Nodes
    callee : Node → Nodes → Nodes

abbrev pub no_node : Node
no_node = node none (pos 0) (pos 0) (pos 0) leaf

abbrev set_fn : Node → Option ℤ × Option String → Node × Option String
set_fn (node f c n s cs) (f', e) = (node f' c n s cs, e)

abbrev set_cs : Node → ℤ × Option String → Node × Option String
set_cs (node f c n s cs) (c', e) = (node f c' n s cs, e)

abbrev set_ncalls : Node → ℤ × Option String → Node × Option String
set_ncalls (node f c n s cs) (n', e) = (node f c n' s cs, e)

abbrev set_nsamples : Node → ℤ × Option String → Node × Option String
set_nsamples (node f c n s cs) (s', e) = (node f c n s' cs, e)

abbrev set_callees : Node → Nodes × Option String → Node × Option String
set_callees (node f c n s cs) (cs', e) = (node f c n s cs', e)

abbrev fn_of : Node → Option ℤ
fn_of (node f c n s cs) = f

abbrev cs_of : Node → ℤ
cs_of (node f c n s cs) = c

abbrev ncalls_of : Node → ℤ
ncalls_of (node f c n s cs) = n

abbrev nsamples_of : Node → ℤ
nsamples_of (node f c n s cs) = s

abbrev callees_of : Node → Nodes
callees_of (node f c n s cs) = cs

-- A member of a node's object; `callees` is what its value gives as a list of nodes.
unfoldable pub read_node_member :
    String → Json → (Nodes → Nodes × Option String) → Node → Node × Option String
read_node_member key j callees old =
    if key == "functionAddress"
    then set_fn old (read_pointer (pos 0) read_int (fn_of old) j)
    else if key == "callSiteAddress"
    then set_cs old (read_int (cs_of old) j)
    else if key == "nCalls"
    then set_ncalls old (read_int (ncalls_of old) j)
    else if key == "nSamples"
    then set_nsamples old (read_int (nsamples_of old) j)
    else if key == "callees"
    then set_callees old (callees (callees_of old))
    else (old, none)

abbrev keep_first : Option String → Node × Option String → Node × Option String
keep_first e (n, e') = (n, first_error e e')

abbrev put_callee : Node × Option String → Nodes × Option String → Nodes × Option String
put_callee (n, e) (ns, e') = (callee n ns, first_error e e')

unfoldable mutual
  unfolding read_node_member

  pub read_node : Json → Node → Node × Option String
  read_node null old = (old, none)
  read_node (object fs) old = read_node_members fs old none
  read_node (boolean b) old = (old, wrong_type)
  read_node (integer n) old = (old, wrong_type)
  read_node (real r) old = (old, wrong_type)
  read_node (text t) old = (old, wrong_type)
  read_node (array js) old = (old, wrong_type)

  pub read_node_members : Fields → Node → Option String → Node × Option String
  read_node_members end old e = (old, e)
  read_node_members (field key j fs) old e =
      let r = read_node_member key j (read_callees j) old in
      read_node_members fs r.0 (first_error e r.1)

  pub read_callees : Json → Nodes → Nodes × Option String
  read_callees null old = (leaf, none)
  read_callees (array js) old = read_items js
  read_callees (object fs) old = (old, wrong_type)
  read_callees (boolean b) old = (old, wrong_type)
  read_callees (integer n) old = (old, wrong_type)
  read_callees (real r) old = (old, wrong_type)
  read_callees (text t) old = (old, wrong_type)

  pub read_items : Items → Nodes × Option String
  read_items nil = (leaf, none)
  read_items (cons j js) = put_callee (read_node j no_node) (read_items js)

-- `profile`: the metadata and the tree. The members of the metadata are not read: what they would
-- set is replaced after the reading.
pub record Profile : Type 0 where
  pub metadata : Metadata
  pub tree : Node

unfoldable pub read_profile : Reader Profile
unfolding read_node
read_profile =
    read_struct
      (("tree", into (λ p. p.tree) (λ t p. record p { tree = t }) (λ old j. read_node j old)) ∷ [])

-- `frame`
pub record Frame : Type 0 where
  pub fn : Option ℤ
  pub cs : ℤ

unfoldable pub read_frame : Reader Frame
read_frame = read_struct (
    (
      "functionAddress",
      into (λ f. f.fn) (λ n f. record f { fn = n }) (read_pointer (pos 0) read_int),
    )
    ∷ ("callSiteAddress", into (λ f. f.cs) (λ n f. record f { cs = n }) read_int)
    ∷ [])

put_frame : Frame × Option String → List Frame × Option String → List Frame × Option String
put_frame (f, e) (fs, e') = (f ∷ fs, first_error e e')

read_frames : Items → List Frame × Option String
unfolding put_frame read_frame
read_frames nil = ([], none)
read_frames (cons j js) =
    put_frame (read_frame (record { fn = none; cs = pos 0 }) j) (read_frames js)

unfoldable pub read_trace : Reader (List Frame)
unfolding read_frames
read_trace old null = ([], none)
read_trace old (array js) = read_frames js
read_trace old _ = (old, wrong_type)

-- `errorSig`, `exit` and `dataPoint`, over the type of the system's metrics.
pub record ErrorSig (M : Type 0) : Type 0 where
  pub metadata : Metadata
  pub status : ℤ
  pub signal : String
  pub trace : List Frame
  pub metrics : Option M

unfoldable pub read_error_sig : {M : Type 0} → Reader (ErrorSig M)
unfolding read_trace
read_error_sig = read_struct (
    ("exitStatus", into (λ e. e.status) (λ n e. record e { status = n }) read_int)
    ∷ ("signal", into (λ e. e.signal) (λ s e. record e { signal = s }) read_text)
    ∷ ("stackTrace", into (λ e. e.trace) (λ t e. record e { trace = t }) read_trace)
    ∷ [])

pub record Exit (M : Type 0) : Type 0 where
  pub metadata : Metadata
  pub status : ℤ
  pub signal : String
  pub metrics : Option M

pub record DataPoint : Type 0 where
  pub metadata : Metadata
  pub type : String
  pub payload : Json

-- The anonymous struct that `Converter.dataPoint` reads first.
pub record RawPoint : Type 0 where
  pub type : String
  pub payload : Option Json

-- A `json.RawMessage` takes the value as it is.
unfoldable pub read_raw : Reader (Option Json)
read_raw old j = (some j, none)

abbrev pub point_readers : Readers RawPoint
point_readers =
    ("type", into (λ p. p.type) (λ t p. record p { type = t }) read_text)
    ∷ ("payload", into (λ p. p.payload) (λ j p. record p { payload = j }) read_raw)
    ∷ []

unfoldable pub read_raw_point : Reader RawPoint
read_raw_point = read_struct point_readers
