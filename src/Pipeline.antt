-- ===== src/Pipeline.antt =====
-- A token's task on its way through the services: x/mongoDaemon publishes it, the worker of
-- x/tokenMetadataService reads it and publishes the task for the image, and x/imgresizer reads that.
use Prim.Native.String.{String}
use dwh.Base.{ℕ, ◌≡◌, refl, ap, ◌∙◌, true, some, List, [], ◌∷◌, ◌++◌, arith, inl, inr, Option-cases}
use dwh.Common.Queue.{
  TaskInfo, Body, object, malformed, Publication, publication, marshal, unmarshal,
}
use dwh.Env.Action.{ok, Outcome-cases}
use dwh.Env.Calls.{reply, fetched}
use dwh.MetadataWorker.{
  text, Metadata, Document, Host, State, TokenMetadataWorker, lookup, find_one, get_metadata,
  is_metadata_erc721, upsert_token_metadata, send_image, process_metadata, process_message,
}
use dwh.MetadataWorker.Stored.{changed, upsert_finds}
use dwh.MongoDaemon.Channel.{Payload, task, raw, RmqReceiverSender, uri_task}

-- What a consumer reads of a payload.
abbrev pub body_of : Payload → Body
body_of (task o) = object o
body_of (raw s) = malformed s

-- When the worker has handled a task that the daemon published without an error, and the token's
-- metadata are there, valid and have an image, the token has a document that was checked now, and
-- there is one publication more, for the resizer's queue and with the priority of the task, which
-- the resizer reads as the task for that image of the same owner and token.
pub image_task_arrives :
    (H : Host) (tmw : TokenMetadataWorker) (rs : RmqReceiverSender) (url owner token_id : String)
    (priority : ℕ) (s : State) (bytes : List ℕ) (metadata : Metadata) (image : String)
    → H.get url ≡ fetched bytes
    → H.validate bytes ≡ reply true
    → H.unmarshal_ext_json bytes ≡ reply (some metadata)
    → lookup "image" metadata ≡ some (text image)
    → let out =
        process_message H tmw (body_of (uri_task rs url owner token_id).payload) priority s in
      out.0 ≡ ok tt
      → ((d : Document) × (find_one token_id out.1.documents ≡ some d) × (d.last_checked ≡ H.now))
        × ((p : Publication) × (out.1.queue ≡ s.queue ++ (p ∷ []))
            × (p.key ≡ tmw.img_sender.queue)
            × (p.priority ≡ priority)
            × (unmarshal p.body ≡ record { owner = owner; token_id = token_id; url = image }))
unfolding process_message process_metadata get_metadata is_metadata_erc721 send_image marshal
    unmarshal publication
image_task_arrives H tmw rs url owner token_id priority s bytes metadata image got valid read found
      h =
    let info : TaskInfo = record { owner = owner; token_id = token_id; url = url } in
    let out = process_message H tmw (object (marshal info)) priority s in
    let up = upsert_token_metadata H info (some metadata) s.documents in
    let p = publication tmw.img_sender image owner token_id priority in
    elim (Outcome-cases up.0) [
      | inr (inl (e, failed)) ↦ absurd (ground (arith, got, valid, read, failed, h))
      | inr (inr failed) ↦ absurd (ground (arith, got, valid, read, failed, h))
      | inl (_, stored) ↦ elim (Option-cases (H.refuses p)) [
        | inr (e, refuses) ↦ absurd (ground (arith, got, valid, read, stored, found, refuses, h))
        | inl takes ↦
            let (f, _, there, now, _) = upsert_finds H info (some metadata) s.documents stored in
            let d = changed H info f (find_one token_id s.documents) in
            let docs : out.1.documents ≡ up.1 =
              ground (arith, got, valid, read, stored, found, takes) in
            let queue : out.1.queue ≡ s.queue ++ (p ∷ []) =
              ground (arith, got, valid, read, stored, found, takes) in
            ((d, ap (find_one token_id) docs ∙ there, now), (p, queue, refl, refl, refl))
      ]
    ]
