-- ===== src/MongoDaemon.antt =====
-- x/mongoDaemon/service.go: the daemon that sends out again the tokens whose metadata were checked
-- the longest time ago. MongoDB is the interface `MongoCollection`.
pub mod Channel
pub mod Limit
pub mod Refresh
pub mod Loop
pub mod Starving
pub mod Oldest
pub mod Rounds
pub mod Memory
pub mod Lifecycle
use Prim.Native.String.{String}
use dwh.Base.{
  ℕ, suc, not, ◌||◌, ◌*◌, ◌/◌, ◌-◌, ◌%◌, Option, none, some, List, [], ◌∷◌, ⊤, ◌<>◌, ltb, ◌==◌,
  str_eq, if◌then◌else◌,
}
use dwh.Common.Types.{Time}
use dwh.Common.Queue.{TaskInfo}
use dwh.Env.Action.{Outcome, ok, err, panic, errorf, error_text}
use dwh.Env.Calls.{Reply, reply, failure}
use dwh.Indexer.Cursor.{word, half}
use dwh.MongoDaemon.Channel.{Sent, Broker, RmqReceiverSender, publish_uri_task, publish_delayed}

-- A value of a document that is no document: a text, or something else by its form under %v.
pub data Value : Type 0 where
  text : String → Value
  other : String → Value

abbrev pub print : Value → String
print (text s) = s
print (other s) = s

pub data Field : Type 0 where
  plain : Value → Field
  embedded : List (String × Value) → Field

-- map[string]interface{}
abbrev pub Document : Type 0
Document = List (String × Field)

abbrev pub get {ℓ} : {A : Type ℓ} → String → List (String × A) → Option A
get k [] = none
get k ((j, v) ∷ d) = let rest = get k d in if str_eq j k then some v else rest

-- The collection: EstimatedDocumentCount, Find of all documents up to a limit in the order of
-- `dwhData.lastChecked`, and UpdateOne by a `_id`, which sets that time and returns how many
-- documents it has matched and modified. `find` returns what the cursor yields, each as `Decode`
-- reads it, and the error of the cursor in the end.
pub record MongoCollection : Type 1 where
  pub Collection : Type 0
  pub estimated_document_count : Collection → Reply ℕ
  pub find : ℕ → Collection → Reply (List (Reply Document) × Option String)
  pub update_one : Field → Time → Collection → Reply (ℕ × ℕ) × Collection

pub record MongoDaemon : Type 0 where
  pub rmq_receiver_sender : RmqReceiverSender
  pub daemon_update_percent : ℕ

-- The document and the task that are made of one that the cursor yields.
pub data Reading : Type 0 where
  skipped : String → Reading
  found : Field → TaskInfo → Reading

-- The guards of the loop.
unfoldable pub read_document : Document → Reading
read_document d = elim (get "_id" d) [
  | none ↦ skipped "no _id field in document"
  | some id ↦ elim (get "dwhData" d) [
    | none ↦ skipped "no dwhData field in document"
    | some (plain _) ↦ skipped "invalid dwhData field in document"
    | some (embedded dwh) ↦ elim (get "owner" dwh) [
      | none ↦ skipped "no owner field in dwhData"
      | some owner ↦ elim (get "url" dwh) [
        | none ↦ skipped "no url field in dwhData"
        | some uri ↦ elim (get "tokenID" dwh) [
          | none ↦ skipped "no tokenID field in dwhData"
          | some token_id ↦
              found id (record { owner = print owner; token_id = print token_id; url = print uri })
        ]
      ]
    ]
  ]
]

-- `overallCount * md.cfg.DaemonUpdatePercent / 100` on int64 values: the product wraps around, and
-- the quotient is cut off towards 0.
unfoldable pub update_count : ℕ → ℕ → ℕ
update_count overall_count percent =
    let p = (overall_count * percent) % word in
    if ltb p half then p / 100 else (word - (word - p) / 100) % word

-- The count is 0 with an error, which is not looked at.
abbrev pub overall_count : Reply ℕ → ℕ
overall_count (reply n) = n
overall_count (failure _) = 0

-- The collection and what is on the queues.
pub record State (M : MongoCollection) : Type 0 where
  pub collection : M.Collection
  pub queue : List Sent

module _ (M : MongoCollection) (B : Broker) where
  -- One document: it is marked as checked, then its task is published.
  unfoldable pub refresh_one :
      RmqReceiverSender → Time → Field → TaskInfo → State M → Outcome ⊤ × State M
  unfolding publish_uri_task
  refresh_one rs t_now id task s =
      let (res, c) = M.update_one id t_now s.collection in
      let s' = record s { collection = c } in
      elim res [
        | failure e ↦ (err (errorf ("failed to update in collection, error: " <> e)), s')
        | reply (matched, modified) ↦
            if matched == 0 || not (matched == modified)
            then (err (errorf "failed to update: no matches"), s')
            else (let (r, q) = publish_uri_task B rs task.url task.owner task.token_id s.queue in
                let s'' = record s' { queue = q } in
                elim r [
                  | ok _ ↦ (ok tt, s'')
                  | err e ↦
                      (err (errorf ("failed to publish uri tasks, error: " <> error_text e)), s'')
                  | panic ↦ (panic, s'')
                ])
      ]

  -- The loop over the cursor.
  unfoldable pub refresh :
      RmqReceiverSender
      → Time
      → Option String
      → List (Reply Document)
      → State M
      → Outcome ⊤ × State M
  unfolding read_document refresh_one
  refresh rs t_now (some e) [] s = (err (errorf ("mongodb cursor error: " <> e)), s)
  refresh rs t_now none [] s = (ok tt, s)
  refresh rs t_now cur_err (failure e ∷ docs) s =
      (err (errorf ("could not decode old metadata, error: " <> e)), s)
  refresh rs t_now cur_err (reply d ∷ docs) s = elim (read_document d) [
    | skipped _ ↦ refresh rs t_now cur_err docs s
    | found id task ↦
        let (r, s') = refresh_one rs t_now id task s in
        let rest = refresh rs t_now cur_err docs s' in
        elim r [ ok _ ↦ rest | err e ↦ (err e, s') | panic ↦ (panic, s') ]
  ]

  -- The body of the delivery is not read.
  unfoldable pub process_message : MongoDaemon → Time → State M → Outcome ⊤ × State M
  unfolding update_count refresh
  process_message md t_now s =
      let overall = overall_count (M.estimated_document_count s.collection) in
      elim (M.find (update_count overall md.daemon_update_percent) s.collection) [
        | failure e ↦ (err (errorf ("could not find in mongo collection, error: " <> e)), s)
        | reply (docs, cur_err) ↦ refresh md.rmq_receiver_sender t_now cur_err docs s
      ]

-- A delivery: when it comes in, and what the broker says to the publications until the next one.
pub record Turn : Type 0 where
  pub time : Time
  pub broker : Broker

module _ (M : MongoCollection) where
  -- The loop of `Run`, by the deliveries that come in, with the number of those that it has
  -- acknowledged. An error is logged, of `processMessage`, `Ack` and `publishDelayed`.
  unfoldable pub deliveries : MongoDaemon → List Turn → State M × ℕ → Outcome ⊤ × (State M × ℕ)
  unfolding process_message publish_delayed
  deliveries md [] (s, acks) = (ok tt, (s, acks))
  deliveries md (t ∷ msgs) (s, acks) =
      let (r, s') = process_message M t.broker md t.time s in
      let (_, q) = publish_delayed t.broker md.rmq_receiver_sender s'.queue in
      let rest = deliveries md msgs (record s' { queue = q }, suc acks) in
      elim r [ ok _ ↦ rest | err _ ↦ rest | panic ↦ (panic, (s', acks)) ]

  -- The first argument is what `GetTaskMessageChan` returns.
  unfoldable pub run : Outcome (List Turn) → MongoDaemon → State M → Outcome ⊤ × (State M × ℕ)
  unfolding deliveries
  run (ok msgs) md s = deliveries md msgs (s, 0)
  run (err e) md s = (err (errorf ("could not get rabbitMQ chan, error: " <> error_text e)), (s, 0))
  run panic md s = (panic, (s, 0))
