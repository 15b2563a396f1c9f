-- ===== src/MetadataWorker/Service.antt =====
-- The start, the loop and the end of the worker of x/tokenMetadataService/service.go.
use Prim.Native.String.{String}
use dwh.Base.{ℕ, suc, List, [], ◌∷◌, ⊤, ◌<>◌}
use dwh.Common.Config.{DwhCommonServiceConfig}
use dwh.Common.Config.Reading.{ConfigHost, read_common_config}
use dwh.Common.Connections.{
  Call, mongo_connect, mongo_disconnect, create_index, Step, step, Faults, perform, performing,
  wrapped, RmqReceiver, new_rmq_receiver, new_rmq_sender, mongo_client_steps, closer_steps,
}
use dwh.Common.Queue.{Body}
use dwh.Env.Action.{Outcome, ok, err, panic, errorf, error_text}
use dwh.MetadataWorker.{Host, State, TokenMetadataWorker, process_message}

-- The worker, with its end of the queue.
pub record Service : Type 0 where
  pub receiver : RmqReceiver
  pub worker : TokenMetadataWorker

-- The calls on MongoDB.
unfoldable pub mongo_steps : DwhCommonServiceConfig → List Step
unfolding mongo_client_steps
mongo_steps cfg =
    step mongo_connect "could not connect MongoDB, error: "
    ∷ step
        (create_index cfg.mongo_db.mongo_database cfg.mongo_db.mongo_collection
          "dwhData.lastChecked")
        "could not create MongoDB index, error: "
    ∷ []

unfoldable pub new_token_metadata_worker :
    Faults → ConfigHost → String → String → List Call → Outcome Service × List Call
unfolding read_common_config new_rmq_receiver new_rmq_sender mongo_client_steps mongo_steps perform
new_token_metadata_worker F V config_file_name config_path made =
    let cfg = read_common_config V config_file_name config_path in
    let t = cfg.token_metadata_service in
    let i = cfg.img_resizer_service in
    let (receiver, made1) =
      new_rmq_receiver F V cfg t.uri_queue_name t.uri_queue_max_priority t.uri_queue_prefetch_count
        made in
    let (sender, made2) = new_rmq_sender F V cfg i.img_queue_name i.img_queue_max_priority made1 in
    let (client, made3) = perform F (mongo_client_steps cfg) made2 in
    elim (wrapped "could not create rabbitMQ receiver, error: " receiver) [
      | err e ↦ (err e, made1)
      | panic ↦ (panic, made1)
      | ok r ↦ elim (wrapped "could not create rabbitMQ sender, error: " sender) [
        | err e ↦ (err e, made2)
        | panic ↦ (panic, made2)
        | ok s ↦ elim (wrapped "could not dial rabbitMQ, error: " client) [
          | err e ↦ (err e, made3)
          | panic ↦ (panic, made3)
          | ok _ ↦
              performing F (mongo_steps cfg)
                (record { receiver = r; worker = record { img_sender = s } }) made3
        ]
      ]
    ]

-- The receiver is closed, then the sender, then the client of MongoDB, up to the first error.
unfoldable pub closer : Faults → List Call → Outcome ⊤ × List Call
unfolding perform closer_steps
closer F made =
    let (r, made1) = perform F closer_steps made in
    let (s, made2) = perform F closer_steps made1 in
    elim (wrapped "could not close rabbitMQ receiver, error: " r) [
      | err e ↦ (err e, made1)
      | panic ↦ (panic, made1)
      | ok _ ↦ elim (wrapped "could not close rabbitMQ sender, error: " s) [
        | err e ↦ (err e, made2)
        | panic ↦ (panic, made2)
        | ok _ ↦
            perform F (step mongo_disconnect "could not disconnect MongoDB client, error: " ∷ [])
              made2
      ]
    ]

module _ (H : Host) where
  -- The loop of `Run` over the bodies and priorities of the deliveries, with the number of those
  -- that it has acknowledged. An error is logged, of `processMessage` and of `Ack`.
  unfoldable pub deliveries :
      TokenMetadataWorker → List (Body × ℕ) → State × ℕ → Outcome ⊤ × (State × ℕ)
  unfolding process_message
  deliveries tmw [] (s, acks) = (ok tt, (s, acks))
  deliveries tmw ((body, priority) ∷ msgs) (s, acks) =
      let (r, s') = process_message H tmw body priority s in
      let rest = deliveries tmw msgs (s', suc acks) in
      elim r [ ok _ ↦ rest | err _ ↦ rest | panic ↦ (panic, (s', acks)) ]

  -- The first argument is what `GetMessageChan` returns.
  unfoldable pub run :
      Outcome (List (Body × ℕ)) → TokenMetadataWorker → State → Outcome ⊤ × (State × ℕ)
  unfolding deliveries
  run (ok msgs) tmw s = deliveries tmw msgs (s, 0)
  run (err e) tmw s =
      (err (errorf ("could not get rabbitMQ msg chan, error: " <> error_text e)), (s, 0))
  run panic tmw s = (panic, (s, 0))
