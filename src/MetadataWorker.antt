-- ===== src/MetadataWorker.antt =====
-- x/tokenMetadataService/service.go: what the worker does with one task from the queue of tokens'
-- metadata. MetadataWorker/Service.antt has its loop and its connections.
pub mod Stored
pub mod Service
use Prim.Native.String.{String}
use dwh.Base.{
  ℕ, Bool, true, false, ◌&&◌, Option, none, some, List, [], ◌∷◌, ◌++◌, ⊤, ◌<>◌, str_eq, not, select,
  if◌then◌else◌,
}
use dwh.Common.Types.{Time}
use dwh.Common.Queue.{
  TaskInfo, Body, object, malformed, unmarshal, Publication, RmqSender, publication,
}
use dwh.Env.Action.{Outcome, ok, err, panic, errorf, error_text}
use dwh.Env.Calls.{Reply, reply, failure, Fetched, no_answer, broken, fetched}

-- A value of the metadata: a text, or something else by its extended JSON form.
pub data Value : Type 0 where
  text : String → Value
  other : String → Value

-- map[string]interface{}
abbrev pub Metadata : Type 0
Metadata = List (String × Value)

-- A document of the collection: the fields under `dwhData`, three of which may be missing, and the
-- others but `_id`.
pub record Document : Type 0 where
  pub token_id : String
  pub owner : Option String
  pub url : Option String
  pub last_updated : Option Time
  pub last_checked : Time
  pub fields : Metadata

-- The web, the validator of the schema, the reader of extended JSON, which leaves the map nil on a
-- null, the errors of MongoDB, the broker and the clock. A call that fails changes nothing. A key is
-- plain if `$set` takes it for the name of a field: it has no dots, does not begin with a dollar
-- sign and is not `_id`. `set_path` is what `$set` does with another key, if it gives no error.
pub record Host : Type 0 where
  pub get : String → Fetched
  pub validate : List ℕ → Reply Bool
  pub unmarshal_ext_json : List ℕ → Reply (Option Metadata)
  pub find_error : String → Option String
  pub update_error : String → Option Metadata → Option String
  pub is_plain : String → Bool
  pub set_path : String → Value → Metadata → Metadata
  pub refuses : Publication → Option String
  pub now : Time

pub record State : Type 0 where
  pub documents : List Document
  pub queue : List Publication

pub record TokenMetadataWorker : Type 0 where
  pub img_sender : RmqSender

abbrev pub value_eq : Value → Value → Bool
value_eq (text a) (text b) = str_eq a b
value_eq (other a) (other b) = str_eq a b
value_eq _ _ = false

-- `metadata[key]`
abbrev pub lookup : String → Metadata → Option Value
lookup key [] = none
lookup key ((k, v) ∷ m) = let rest = lookup key m in if str_eq k key then some v else rest

-- A nil map has no keys.
abbrev pub lookup_in : String → Option Metadata → Option Value
lookup_in key none = none
lookup_in key (some m) = lookup key m

abbrev pub option_eq : Option Value → Option Value → Bool
option_eq none none = true
option_eq (some v) (some w) = value_eq v w
option_eq _ _ = false

-- The keys of the first are in both, with the same value.
abbrev pub agrees : Metadata → Metadata → Metadata → Bool
agrees [] a b = true
agrees ((k, v) ∷ keys) a b = option_eq (lookup k a) (lookup k b) && agrees keys a b

-- reflect.DeepEqual on two maps that are not nil
abbrev pub deep_equal : Metadata → Metadata → Bool
deep_equal a b = agrees a a b && agrees b a b

-- FindOne, on the key of the token
abbrev pub find_one : String → List Document → Option Document
find_one id [] = none
find_one id (d ∷ ds) = let rest = find_one id ds in if str_eq d.token_id id then some d else rest

-- One field of a `$set`
abbrev pub set_field : String → Value → Metadata → Metadata
set_field key v [] = (key, v) ∷ []
set_field key v ((k, w) ∷ m) =
    let rest = set_field key v m in if str_eq k key then (key, v) ∷ m else (k, w) ∷ rest

-- The key of the service's own data, and the others.
abbrev pub without_own : Metadata → Metadata
without_own = select (λ f. not (str_eq f.0 "dwhData"))

-- UpdateOne with `upsert`, on the key of the token
abbrev pub update_one : String → (Document → Document) → Document → List Document → List Document
update_one id f fresh [] = fresh ∷ []
update_one id f fresh (d ∷ ds) =
    let rest = update_one id f fresh ds in if str_eq d.token_id id then f d ∷ ds else d ∷ rest

module _ (H : Host) where
  -- A `$set` of all fields: the fields that it does not name stay.
  abbrev pub set_fields : Metadata → Metadata → Metadata
  set_fields [] m = m
  set_fields ((k, v) ∷ new) m =
      let rest = set_fields new m in
      if H.is_plain k then set_field k v rest else H.set_path k v rest

  -- The document with new metadata, whose own `dwhData` is overwritten.
  abbrev pub set_metadata : TaskInfo → Metadata → Document → Document
  set_metadata task metadata d = record {
    token_id = task.token_id;
    owner = some task.owner;
    url = some task.url;
    last_updated = some H.now;
    last_checked = H.now;
    fields = set_fields (without_own metadata) d.fields;
  }

  abbrev pub set_checked : Document → Document
  set_checked d = record d { last_checked = H.now }

  -- What an upsert starts from: the key of its filter.
  abbrev pub empty_document : TaskInfo → Document
  empty_document task = record {
    token_id = task.token_id;
    owner = none;
    url = none;
    last_updated = none;
    last_checked = 0;
    fields = [];
  }

  -- reflect.DeepEqual of the metadata and what `FindOne` has decoded: each of the two maps may be
  -- nil, and a nil map equals no other.
  abbrev pub is_same : Option Metadata → Option Document → Bool
  is_same none none = true
  is_same (some metadata) none = false
  is_same none (some d) = false
  is_same (some metadata) (some d) = deep_equal metadata d.fields

  -- The update that is made. It writes into the map, which is nil for none.
  abbrev pub change : TaskInfo → Option Metadata → Option Document → Option (Document → Document)
  change task metadata o =
      if is_same metadata o
      then some set_checked
      else elim metadata [ none ↦ none | some m ↦ some (set_metadata task m) ]

  unfoldable pub upsert_token_metadata :
      TaskInfo → Option Metadata → List Document → Outcome ⊤ × List Document
  upsert_token_metadata task metadata docs = elim (H.find_error task.token_id) [
    | some e ↦ (err (errorf ("could not find one in mongo collection, error: " <> e)), docs)
    | none ↦ elim (change task metadata (find_one task.token_id docs)) [
      | none ↦ (panic, docs)
      | some f ↦ elim (H.update_error task.token_id metadata) [
        | some e ↦ (err (errorf ("could not update one in mongo collection, error: " <> e)), docs)
        | none ↦ (ok tt, update_one task.token_id f (f (empty_document task)) docs)
      ]
    ]
  ]

  -- The task for the image, if the metadata are valid and have one. An image that is no text panics.
  unfoldable pub send_image :
      TokenMetadataWorker → TaskInfo → Bool → Option Metadata → ℕ → State → Outcome ⊤ × State
  send_image tmw task is_valid metadata priority s =
      if is_valid
      then elim (lookup_in "image" metadata) [
        | none ↦ (ok tt, s)
        | some (other v) ↦ (panic, s)
        | some (text image) ↦
            let p = publication tmw.img_sender image task.owner task.token_id priority in
            elim (H.refuses p) [
              | some e ↦ (
                err (
                    errorf (
                      "could not publish img task rabbitMQ, error: could not publish rabbitMQ message, error: "
                      <> e)),
                s,
              )
              | none ↦ (ok tt, record s { queue = s.queue ++ (p ∷ []) })
            ]
      ]
      else (ok tt, s)

  unfoldable pub get_metadata : String → Reply (List ℕ)
  get_metadata url = elim (H.get url) [
    | no_answer e ↦ failure ("could not get url via http client, error: " <> e)
    | broken e ↦ failure ("could not read response body, error: " <> e)
    | fetched body ↦ reply body
  ]

  unfoldable pub is_metadata_erc721 : List ℕ → Reply Bool
  is_metadata_erc721 metadata = elim (H.validate metadata) [
    | failure e ↦ failure ("could not validate json schema, error: " <> e)
    | reply valid ↦ reply valid
  ]

  -- From the fetched bytes on.
  unfoldable pub process_metadata :
      TokenMetadataWorker → TaskInfo → List ℕ → ℕ → State → Outcome ⊤ × State
  unfolding is_metadata_erc721 upsert_token_metadata send_image
  process_metadata tmw task bytes priority s = elim (is_metadata_erc721 bytes) [
    | failure e ↦ (err (errorf ("could not verify metadata, error: " <> e)), s)
    | reply is_valid ↦ elim (H.unmarshal_ext_json bytes) [
      | failure e ↦ (err (errorf ("could not unmarshal ext json, error: " <> e)), s)
      | reply metadata ↦
          let (r, docs) = upsert_token_metadata task metadata s.documents in
          let s' = record s { documents = docs } in
          let sent = send_image tmw task is_valid metadata priority s' in
          elim r [
            | err e ↦
                (err (errorf ("could not upsert token metadata, error: " <> error_text e)), s')
            | panic ↦ (panic, s')
            | ok _ ↦ sent
          ]
    ]
  ]

  unfoldable pub process_message : TokenMetadataWorker → Body → ℕ → State → Outcome ⊤ × State
  unfolding unmarshal get_metadata process_metadata
  process_message tmw (malformed e) priority s = (err (errorf ("unmarshal error: " <> e)), s)
  process_message tmw (object o) priority s =
      let task = unmarshal o in
      elim (get_metadata task.url) [
        | failure e ↦ (err (errorf ("could not get metadata url, error: " <> e)), s)
        | reply bytes ↦ process_metadata tmw task bytes priority s
      ]
