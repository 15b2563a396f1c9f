-- ===== src/Common/Connections.antt =====
-- x/common/rabbit_receiver.go, rabbit_sender.go and mongo.go: how the services connect to RabbitMQ
-- and MongoDB, as the calls that they make in order, up to the first that fails.
use Prim.Native.String.{String}
use dwh.Base.{ℕ, Option, none, some, List, [], ◌∷◌, ◌++◌, ⊤, ◌<>◌}
use dwh.Common.Config.{DwhCommonServiceConfig}
use dwh.Common.Config.Reading.{ConfigHost, queue_addr_string_from_config}
use dwh.Common.Queue.{RmqSender}
use dwh.Env.Action.{Outcome, ok, err, panic, errorf, error_text}

-- A value of an amqp.Table.
pub data Arg : Type 0 where
  number : ℕ → Arg
  text : String → Arg

abbrev pub Args : Type 0
Args = List (String × Arg)

-- The calls of the two clients. Every queue and exchange is durable and waited for, and none is
-- exclusive or deleted by itself; every Qos is of one consumer.
pub data Call : Type 0 where
  dial : String → Call
  channel : Call
  exchange_declare : String → String → Args → Call
  queue_declare : String → Args → Call
  qos : ℕ → Call
  queue_bind : String → String → String → Args → Call
  consume : String → Call
  close_channel : Call
  close_connection : Call
  new_mongo_client : String → String → String → Call
  mongo_connect : Call
  create_index : String → String → String → Call
  mongo_disconnect : Call

-- A call, with what its error is wrapped in, or nothing where the error is not looked at.
pub record Step : Type 0 where
  pub call : Call
  pub message : Option String

abbrev pub step : Call → String → Step
step c s = record { call = c; message = some s }

-- The error of a call after others that were made, if it fails.
abbrev pub Faults : Type 0
Faults = List Call → Call → Option String

module _ (F : Faults) where
  -- The calls that succeed are added to those made before.
  unfoldable pub perform : List Step → List Call → Outcome ⊤ × List Call
  perform [] made = (ok tt, made)
  perform (x ∷ steps) made = elim (F made x.call) [
    | none ↦ perform steps (made ++ (x.call ∷ []))
    | some e ↦ elim x.message [ none ↦ perform steps made | some s ↦ (err (errorf (s <> e)), made) ]
  ]

  -- Some calls, then a value.
  abbrev pub performing : {A : Type 0} → List Step → A → List Call → Outcome A × List Call
  performing steps a made =
      let (r, made') = perform steps made in
      (elim r [ ok _ ↦ ok a | err e ↦ err e | panic ↦ panic ], made')

-- An outcome with what is put before its error.
abbrev pub wrapped : {A : Type 0} → String → Outcome A → Outcome A
wrapped s (ok a) = ok a
wrapped s (err e) = err (errorf (s <> error_text e))
wrapped s panic = panic

-- RMQReceiver, as far as `GetMessageChan` reads it: the name of its queue.
pub record RmqReceiver : Type 0 where
  pub queue : String

abbrev pub priority_args : ℕ → Args
priority_args n = ("x-max-priority", number n) ∷ []

unfoldable pub receiver_steps : ConfigHost → DwhCommonServiceConfig → String → ℕ → ℕ → List Step
receiver_steps V cfg queue_name queue_max_priority queue_prefetch_count =
    step (dial (queue_addr_string_from_config V cfg)) "could not dial rabbitMQ, error: "
    ∷ step channel "could not create rabbitMQ channel error: "
    ∷ step (queue_declare queue_name (priority_args queue_max_priority))
        "could not declare rabbitMQ queue, error: "
    ∷ step (qos queue_prefetch_count) "could not set rabbitMQ Qos, error: "
    ∷ []

unfoldable pub new_rmq_receiver :
    Faults
    → ConfigHost
    → DwhCommonServiceConfig
    → String
    → ℕ
    → ℕ
    → List Call
    → Outcome RmqReceiver × List Call
unfolding perform receiver_steps
new_rmq_receiver F V cfg queue_name queue_max_priority queue_prefetch_count =
    performing F (receiver_steps V cfg queue_name queue_max_priority queue_prefetch_count)
      (record { queue = queue_name })

unfoldable pub sender_steps : ConfigHost → DwhCommonServiceConfig → String → ℕ → List Step
sender_steps V cfg queue_name queue_max_priority =
    step (dial (queue_addr_string_from_config V cfg)) "could not dial rabbitMQ, error: "
    ∷ step channel "could not create rabbitMQ channel, error: "
    ∷ step (queue_declare queue_name (priority_args queue_max_priority))
        "could not declare rabbitMQ queue, error: "
    ∷ []

unfoldable pub new_rmq_sender :
    Faults
    → ConfigHost
    → DwhCommonServiceConfig
    → String
    → ℕ
    → List Call
    → Outcome RmqSender × List Call
unfolding perform sender_steps
new_rmq_sender F V cfg queue_name queue_max_priority =
    performing F (sender_steps V cfg queue_name queue_max_priority) (record { queue = queue_name })

-- `Closer` of each of RMQReceiver, RMQSender and RMQReceiverSender
unfoldable pub closer_steps : List Step
closer_steps =
    step close_channel "could not close rabbitMQ channel, error: "
    ∷ step close_connection "could not close rabbitMQ connection, error: "
    ∷ []

unfoldable pub get_message_chan : Faults → RmqReceiver → List Call → Outcome ⊤ × List Call
unfolding perform
get_message_chan F r =
    perform F (step (consume r.queue) "could not get rabbitMQ msg chan, error: " ∷ [])

-- The options are made of the address and of the credentials.
unfoldable pub mongo_client_steps : DwhCommonServiceConfig → List Step
mongo_client_steps cfg =
    let m = cfg.mongo_db in
    step
      (new_mongo_client
        ("mongodb://"
          <> (m.mongo_user_name
              <> (":"
                  <> (m.mongo_user_pass <> ("@" <> (m.mongo_host <> ("/" <> m.mongo_database)))))))
        m.mongo_user_name m.mongo_user_pass)
      "could not create mongo client, error: "
    ∷ []
