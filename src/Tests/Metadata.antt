-- ===== src/Tests/Metadata.antt =====
-- A run of the metadata worker on new metadata that lack a field of the old.
use Prim.Native.String.{String}
use dwh.Base.{
  ◌≡◌, ◌≢◌, ◌⊎◌, refl, ℕ, Bool, true, false, not, Option, none, some, List, [], ◌∷◌, str_eq,
  if◌then◌else◌,
}
use dwh.Common.Config.{default_dwh_common_service_config}
use dwh.Common.Queue.{TaskInfo, Json, Publication, marshal, unmarshal}
use dwh.MongoDaemon.Channel.{RmqReceiverSender, receiver_sender, uri_task}
use dwh.Pipeline.{body_of, image_task_arrives}
use dwh.Env.Calls.{reply, fetched}
use dwh.MetadataWorker.{
  Metadata, text, other, Document, Host, lookup, lookup_in, find_one, upsert_token_metadata,
  process_message,
}
use dwh.MetadataWorker.{get_metadata, is_metadata_erc721, send_image, process_metadata}
use dwh.MetadataWorker.Stored.{first_of, stored_field, upsert_stores, process_message_panics}

abbrev new_fields : Metadata
new_fields = ("image", text "new") ∷ ("dwhData", text "mine") ∷ []

abbrev test_web : Host
test_web = record {
  get = λ url. fetched (1 ∷ []);
  validate = λ b. reply true;
  unmarshal_ext_json = λ b. reply (some new_fields);
  find_error = λ id. none;
  update_error = λ id m. none;
  is_plain = λ k. not (str_eq k "a.b");
  set_path = λ k v m. m;
  refuses = λ p. none;
  now = 9;
}

abbrev task : TaskInfo
task = record { owner = "alice"; token_id = "t"; url = "uri" }

abbrev old_document : Document
old_document = record {
  token_id = "t";
  owner = some "alice";
  url = some "uri";
  last_updated = some 1;
  last_checked = 1;
  fields = ("name", text "old") ∷ [];
}

upsert_stores_example :
    (d : Document) × (find_one "t"
        (upsert_token_metadata test_web task (some new_fields) (old_document ∷ [])).1
      ≡ some d)
    × (d.last_checked ≡ 9)
    × ((key : String)
        → str_eq key "dwhData" ≡ false
        → lookup key d.fields
          ≡ first_of (lookup key new_fields) (stored_field key (some old_document)))
    × ((j : String)
        → find_one j (upsert_token_metadata test_web task (some new_fields) (old_document ∷ [])).1
          ≡ (if str_eq "t" j then some d else find_one j (old_document ∷ [])))
unfolding upsert_token_metadata
upsert_stores_example =
    upsert_stores test_web task new_fields (old_document ∷ []) (refl, (refl, tt)) refl

-- The web answers null for a token that has a document.
abbrev null_web : Host
null_web = record test_web { unmarshal_ext_json = λ b. reply none }

abbrev job : Json
job = ("owner", "alice") ∷ ("token_id", "t") ∷ ("url", "uri") ∷ []

process_message_panics_example :
    (bytes : List ℕ) × (get_metadata null_web "uri" ≡ reply bytes)
    × (is_valid : Bool) × (is_metadata_erc721 null_web bytes ≡ reply is_valid)
    × (metadata : Option Metadata) × (null_web.unmarshal_ext_json bytes ≡ reply metadata)
    × (((metadata ≡ none) × (find_one "t" (old_document ∷ []) ≢ none))
        ⊎ ((is_valid ≡ true) × ((v : String) × (lookup_in "image" metadata ≡ some (other v)))))
unfolding process_message process_metadata get_metadata is_metadata_erc721 upsert_token_metadata
    send_image unmarshal
process_message_panics_example =
    process_message_panics null_web (record { img_sender = record { queue = "images" } }) job 2
      (record { documents = old_document ∷ []; queue = [] }) refl

abbrev published : RmqReceiverSender
published = receiver_sender default_dwh_common_service_config

image_task_arrives_example :
    let out =
      process_message test_web
        (record { img_sender = record { queue = "images" } })
        (body_of (uri_task published "uri" "alice" "t").payload)
        2
        (record { documents = old_document ∷ []; queue = [] }) in
    ((d : Document) × (find_one "t" out.1.documents ≡ some d) × (d.last_checked ≡ 9))
    × ((p : Publication) × (out.1.queue ≡ p ∷ [])
        × (p.key ≡ "images")
        × (p.priority ≡ 2)
        × (unmarshal p.body ≡ record { owner = "alice"; token_id = "t"; url = "new" }))
unfolding process_message process_metadata get_metadata is_metadata_erc721 upsert_token_metadata
    send_image marshal unmarshal
image_task_arrives_example =
    image_task_arrives test_web (record { img_sender = record { queue = "images" } }) published
      "uri" "alice" "t" 2 (record { documents = old_document ∷ []; queue = [] }) (1 ∷ []) new_fields
      "new" refl refl refl refl refl
