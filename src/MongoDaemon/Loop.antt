-- ===== src/MongoDaemon/Loop.antt =====
-- The delayed messages that keep the daemon of x/mongoDaemon turning: the broker hands each of them
-- to the queue of the daemon's tasks when its time is over.
use Prim.Native.String.{String}
use dwh.Base.{
  ℕ, suc, ◌+◌, ◌≡◌, ◌≢◌, refl, ap, ◌∙◌, Option, none, some, List, [], ◌∷◌, ◌++◌, arith, inl, inr,
  Option-cases, length, str_eq, eq_iff, eq_refl, if◌then◌else◌,
}
use dwh.Common.Types.{Time}
use dwh.Common.Config.{DwhCommonServiceConfig}
use dwh.Common.Config.Reading.{ConfigHost}
use dwh.Common.Connections.{Call, Faults}
use dwh.Common.Queue.{TaskInfo}
use dwh.Env.Action.{ok, panic}
use dwh.Env.Calls.{Reply, reply, failure, Reply-cases}
use dwh.MongoDaemon.Channel.{
  Sent, Broker, RmqReceiverSender, uri_task, delayed, publish_uri_task, publish_delayed,
  receiver_sender, new_rmq_receiver_sender,
}
use dwh.MongoDaemon.{
  Field, Document, MongoCollection, MongoDaemon, read_document, update_count, overall_count, State,
  Turn, refresh_one, refresh, process_message, deliveries, run,
}
use dwh.MongoDaemon.Refresh.{Reading-cases}

-- How many publications on the queues are under a key.
abbrev pub count_key : String → List Sent → ℕ
count_key key [] = 0
count_key key (p ∷ queue) =
    let rest = count_key key queue in if str_eq p.key key then 1 + rest else rest

pub count_key-append :
    (key : String) (l m : List Sent) → count_key key (l ++ m) ≡ count_key key l + count_key key m
count_key-append key [] m = omega arith
count_key-append key (p ∷ l) m = ground (arith, count_key-append key l m)

module _ (M : MongoCollection) (B : Broker) (rs : RmqReceiverSender)
    (ne : rs.uri_q ≢ rs.delayed_q) where
  one_keeps_delayed :
      (t : Time) (id : Field) (task : TaskInfo) (s : State M)
      → let out = refresh_one M B rs t id task s in
        (out.0 ≢ panic) × (count_key rs.delayed_q out.1.queue ≡ count_key rs.delayed_q s.queue)
  unfolding refresh_one publish_uri_task
  one_keeps_delayed t id task s = ground (
    arith,
    count_key-append rs.delayed_q s.queue (uri_task rs task.url task.owner task.token_id ∷ []),
    eq_iff rs.uri_q rs.delayed_q,
  )

  refresh_keeps_delayed :
      (t : Time) (e : Option String) (docs : List (Reply Document)) (s : State M)
      → let out = refresh M B rs t e docs s in
        (out.0 ≢ panic) × (count_key rs.delayed_q out.1.queue ≡ count_key rs.delayed_q s.queue)
  unfolding refresh
  refresh_keeps_delayed t (some e) [] s = ((λ h. cc), refl)
  refresh_keeps_delayed t none [] s = ((λ h. cc), refl)
  refresh_keeps_delayed t e (failure f ∷ docs) s = ((λ h. cc), refl)
  refresh_keeps_delayed t e (reply d ∷ docs) s = elim (Reading-cases (read_document d)) [
    | inl (why, r) ↦ ground (arith, r, refresh_keeps_delayed t e docs s)
    | inr (id, task, r) ↦
        let s' = (refresh_one M B rs t id task s).1 in
        ground (arith, r, one_keeps_delayed t id task s, refresh_keeps_delayed t e docs s')
  ]

  process_keeps_delayed :
      (md : MongoDaemon) (t : Time) (s : State M)
      → md.rmq_receiver_sender ≡ rs
      → let out = process_message M B md t s in
        (out.0 ≢ panic) × (count_key rs.delayed_q out.1.queue ≡ count_key rs.delayed_q s.queue)
  unfolding process_message
  process_keeps_delayed md t s e =
      let overall = overall_count (M.estimated_document_count s.collection) in
      elim (Reply-cases (M.find (update_count overall md.daemon_update_percent) s.collection)) [
        | inl (why, failed) ↦ ground (arith, failed)
        | inr ((docs, cur_err), done) ↦
            ground (arith, done, e, refresh_keeps_delayed t cur_err docs s)
      ]

-- How many of the deliveries come with a broker that takes the delayed message after them.
abbrev pub taken : RmqReceiverSender → List Turn → ℕ
taken rs [] = 0
taken rs (t ∷ msgs) =
    let rest = taken rs msgs in elim (t.broker (delayed rs)) [ none ↦ suc rest | some _ ↦ rest ]

module _ (M : MongoCollection) (rs : RmqReceiverSender) (ne : rs.uri_q ≢ rs.delayed_q) where
  deliveries_keep_delayed :
      (md : MongoDaemon) (msgs : List Turn) (s : State M) (acks : ℕ)
      → md.rmq_receiver_sender ≡ rs
      → let out = deliveries M md msgs (s, acks) in
        (out.0 ≡ ok tt)
        × (out.1.1 ≡ acks + length msgs)
        × (count_key rs.delayed_q out.1.0.queue ≡ count_key rs.delayed_q s.queue + taken rs msgs)
  unfolding deliveries publish_delayed
  deliveries_keep_delayed md [] s acks e = (refl, omega arith, omega arith)
  deliveries_keep_delayed md (t ∷ msgs) s acks e =
      let s' = (process_message M t.broker md t.time s).1 in
      let s'' : State M = record s' { queue = s'.queue ++ (delayed rs ∷ []) } in
      let kept = process_keeps_delayed M t.broker rs ne md t.time s e in
      elim (Option-cases (t.broker (delayed rs))) [
        | inl takes ↦ ground (
          arith,
          e,
          takes,
          kept,
          count_key-append rs.delayed_q s'.queue (delayed rs ∷ []),
          eq_refl rs.delayed_q,
          deliveries_keep_delayed md msgs s'' (suc acks) e,
        )
        | inr (why, refuses) ↦
            ground (arith, e, refuses, kept, deliveries_keep_delayed md msgs s' (suc acks) e)
      ]

start_publishes :
    (F : Faults) (V : ConfigHost) (B : Broker) (cfg : DwhCommonServiceConfig) (made : List Call)
    (queue : List Sent)
    → let rs = receiver_sender cfg in
      (new_rmq_receiver_sender F V B cfg (made, queue)).0 ≡ ok rs
      → (new_rmq_receiver_sender F V B cfg (made, queue)).1.1 ≡ queue ++ (delayed rs ∷ [])
unfolding new_rmq_receiver_sender publish_delayed
start_publishes F V B cfg made queue h = elim (Option-cases (B (delayed (receiver_sender cfg)))) [
  | inl takes ↦ ground (arith, takes, h)
  | inr (e, refuses) ↦ absurd (ground (arith, refuses, h))
]

-- Whatever the collection and the broker answer at each delivery, a daemon that has started goes
-- through every delivery that comes in and acknowledges each once, and the delayed messages on the
-- queues are then more by the one that the start puts there and by one for each delivery after
-- which the broker takes it, where the tokens' queue has another name than the delayed one. A
-- delayed message that the broker refuses is not replaced.
pub daemon_keeps_turning :
    (M : MongoCollection) (F : Faults) (V : ConfigHost) (B : Broker) (cfg : DwhCommonServiceConfig)
    (made : List Call) (queue : List Sent) (percent : ℕ) (c : M.Collection) (msgs : List Turn)
    → let rs = receiver_sender cfg in
      rs.uri_q ≢ rs.delayed_q
      → (new_rmq_receiver_sender F V B cfg (made, queue)).0 ≡ ok rs
      → let out =
          run M
            (ok msgs)
            (record { rmq_receiver_sender = rs; daemon_update_percent = percent })
            (record {
              collection = c;
              queue = (new_rmq_receiver_sender F V B cfg (made, queue)).1.1;
            }) in
        (out.0 ≡ ok tt)
        × (out.1.1 ≡ length msgs)
        × (count_key rs.delayed_q out.1.0.queue ≡ count_key rs.delayed_q queue + 1 + taken rs msgs)
unfolding run
daemon_keeps_turning M F V B cfg made queue percent c msgs ne started =
    let rs = receiver_sender cfg in
    let queue' = (new_rmq_receiver_sender F V B cfg (made, queue)).1.1 in
    let q = start_publishes F V B cfg made queue started in
    let md : MongoDaemon = record { rmq_receiver_sender = rs; daemon_update_percent = percent } in
    let (ends, acks, count) =
      deliveries_keep_delayed M rs ne md msgs (record { collection = c; queue = queue' }) 0 refl in
    let before : count_key rs.delayed_q queue' ≡ count_key rs.delayed_q queue + 1 =
      ap (count_key rs.delayed_q) q
      ∙ (count_key-append rs.delayed_q queue (delayed rs ∷ [])
          ∙ ground (arith, eq_refl rs.delayed_q)) in
    (ends, acks ∙ omega arith, count ∙ omega (arith, before))
