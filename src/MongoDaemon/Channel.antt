-- ===== src/MongoDaemon/Channel.antt =====
-- x/mongoDaemon/receiver_sender.go: the daemon's exchange and queues, and what it publishes there.
use Prim.Native.String.{String}
use dwh.Base.{ℕ, ◌*◌, ◌%◌, Option, none, some, List, [], ◌∷◌, ◌++◌, ⊤, ◌<>◌}
use dwh.Common.Config.{DwhCommonServiceConfig}
use dwh.Common.Config.Reading.{ConfigHost, queue_addr_string_from_config}
use dwh.Common.Connections.{
  Args, Call, dial, channel, exchange_declare, queue_declare, qos, queue_bind, consume, Step, step,
  Faults, perform, priority_args, number, text,
}
use dwh.Common.Queue.{Json, marshal, regular_update_priority}
use dwh.Env.Action.{Outcome, ok, err, panic, errorf, error_text}
use dwh.Indexer.Cursor.{word}

pub data Payload : Type 0 where
  task : Json → Payload
  raw : String → Payload

-- A publication, which is persistent and neither mandatory nor immediate.
pub record Sent : Type 0 where
  pub exchange : String
  pub key : String
  pub payload : Payload
  pub priority : ℕ

-- The error of `Channel.Publish`, or none when the broker takes the publication.
abbrev pub Broker : Type 0
Broker = Sent → Option String

-- The names of the declared queues are those that were asked for.
pub record RmqReceiverSender : Type 0 where
  pub exchange_name : String
  pub delayed_q : String
  pub task_q : String
  pub uri_q : String

abbrev pub uri_task : RmqReceiverSender → String → String → String → Sent
uri_task rs url owner token_id = record {
  exchange = rs.exchange_name;
  key = rs.uri_q;
  payload = task (marshal (record { owner = owner; token_id = token_id; url = url }));
  priority = regular_update_priority;
}

abbrev pub delayed : RmqReceiverSender → Sent
delayed rs = record {
  exchange = rs.exchange_name;
  key = rs.delayed_q;
  payload = raw "ololo";
  priority = 0;
}

module _ (B : Broker) where
  unfoldable pub publish_uri_task :
      RmqReceiverSender → String → String → String → List Sent → Outcome ⊤ × List Sent
  unfolding marshal regular_update_priority
  publish_uri_task rs url owner token_id queue =
      let p = uri_task rs url owner token_id in
      elim (B p) [
        | some e ↦ (err (errorf ("could not publish task to rabbitMQ, error: " <> e)), queue)
        | none ↦ (ok tt, queue ++ (p ∷ []))
      ]

  unfoldable pub publish_delayed : RmqReceiverSender → List Sent → Outcome ⊤ × List Sent
  publish_delayed rs queue = elim (B (delayed rs)) [
    | some e ↦ (err (errorf ("could not publish delayed message rabbitMQ, error: " <> e)), queue)
    | none ↦ (ok tt, queue ++ (delayed rs ∷ []))
  ]

-- `x-message-ttl`, in milliseconds
abbrev ttl : DwhCommonServiceConfig → ℕ
ttl cfg = (cfg.mongo_daemon_service.daemon_ttl_seconds * 1000) % word

abbrev uri_args : DwhCommonServiceConfig → Args
uri_args cfg = priority_args cfg.token_metadata_service.uri_queue_max_priority

-- The task queue has the priorities of the queue of tokens.
abbrev task_args : DwhCommonServiceConfig → Args
task_args cfg =
    ("x-max-priority", number cfg.token_metadata_service.uri_queue_max_priority)
    ∷ ("x-message-ttl", number (ttl cfg))
    ∷ []

abbrev delayed_args : DwhCommonServiceConfig → Args
delayed_args cfg =
    let m = cfg.mongo_daemon_service in
    ("x-max-priority", number m.daemon_task_queue_max_priority)
    ∷ ("x-dead-letter-exchange", text cfg.rabbitmq.exchange_name)
    ∷ ("x-dead-letter-routing-key", text m.daemon_task_queue_name)
    ∷ ("x-message-ttl", number (ttl cfg))
    ∷ []

-- The error of the exchange's declaration is overwritten before it is looked at.
unfoldable pub receiver_sender_steps : ConfigHost → DwhCommonServiceConfig → List Step
receiver_sender_steps V cfg =
    let m = cfg.mongo_daemon_service in
    let uri_queue_name = cfg.token_metadata_service.uri_queue_name in
    let exchange = cfg.rabbitmq.exchange_name in
    step (dial (queue_addr_string_from_config V cfg)) "could not dial rabbitMQ, error: "
    ∷ step channel "could not create rabbitMQ channel, error: "
    ∷ record { call = exchange_declare exchange "direct" (uri_args cfg); message = none }
    ∷ step (queue_declare uri_queue_name (uri_args cfg))
        "could not declare uriTask rabbitMQ queue, error: "
    ∷ step (queue_declare m.daemon_delayed_queue_name (delayed_args cfg))
        "could not declare delayed daemon rabbitMQ queue, error: "
    ∷ step (queue_declare m.daemon_task_queue_name (task_args cfg))
        "could not declare daemon task rabbitMQ queue, error: "
    ∷ step (qos m.daemon_task_queue_prefetch_count) "could not set rabbitMQ Qos, error: "
    ∷ step (queue_bind uri_queue_name uri_queue_name exchange (uri_args cfg))
        "could not bind uri task rabbitMQ queue, error: "
    ∷ step (queue_bind m.daemon_task_queue_name m.daemon_task_queue_name exchange (uri_args cfg))
        "could not bind daemon task rabbitMQ queue, error: "
    ∷ step
        (queue_bind m.daemon_delayed_queue_name m.daemon_delayed_queue_name exchange
          (delayed_args cfg))
        "could not bind delayed daemon rabbitMQ queue, error: "
    ∷ []

abbrev pub receiver_sender : DwhCommonServiceConfig → RmqReceiverSender
receiver_sender cfg = record {
  exchange_name = cfg.rabbitmq.exchange_name;
  delayed_q = cfg.mongo_daemon_service.daemon_delayed_queue_name;
  task_q = cfg.mongo_daemon_service.daemon_task_queue_name;
  uri_q = cfg.token_metadata_service.uri_queue_name;
}

-- What the start has done: the calls that were made, and what is on the queues.
abbrev pub Started : Type 0
Started = List Call × List Sent

unfoldable pub new_rmq_receiver_sender :
    Faults
    → ConfigHost
    → Broker
    → DwhCommonServiceConfig
    → Started
    → Outcome RmqReceiverSender × Started
unfolding perform receiver_sender_steps publish_delayed
new_rmq_receiver_sender F V B cfg (made, queue) =
    let rs = receiver_sender cfg in
    let (r, made') = perform F (receiver_sender_steps V cfg) made in
    let (sent, queue') = publish_delayed B rs queue in
    elim r [
      | err e ↦ (err e, (made', queue))
      | panic ↦ (panic, (made', queue))
      | ok _ ↦ (
        elim sent [
          | ok _ ↦ ok rs
          | err e ↦ err (
              errorf
                ("could not publish delayed message on service start, error: " <> error_text e))
          | panic ↦ panic
        ],
        (made', queue'),
      )
    ]

unfoldable pub get_task_message_chan :
    Faults → RmqReceiverSender → List Call → Outcome ⊤ × List Call
unfolding perform
get_task_message_chan F rs =
    perform F (step (consume rs.task_q) "could not get rabbitMQ msg chan, error: " ∷ [])
