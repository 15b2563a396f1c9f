-- ===== src/MongoDaemon/Starving.antt =====
-- What becomes of the runs of x/mongoDaemon/service.go when the documents that were checked the
-- longest time ago lack a field: they are not marked, and are found again.
use Prim.Native.String.{String}
use dwh.Base.{
  ℕ, suc, ◌≡◌, ◌≢◌, refl, none, List, [], ◌∷◌, ◌++◌, arith, inl, inr, All, Option-cases, eq_iff,
}
use dwh.Common.Types.{Time}
use dwh.Env.Action.{ok}
use dwh.Env.Calls.{Reply, reply}
use dwh.MongoDaemon.Channel.{Broker, RmqReceiverSender, delayed, publish_delayed}
use dwh.MongoDaemon.{
  Document, MongoCollection, MongoDaemon, read_document, skipped, update_count, overall_count,
  State, Turn, refresh, process_message, deliveries, run,
}
use dwh.MongoDaemon.Loop.{count_key, count_key-append}

-- A document of which no task can be made.
abbrev pub IsSkipped : Document → Type 0
IsSkipped d = (why : String) × (read_document d ≡ skipped why)

abbrev pub decoded : List Document → List (Reply Document)
decoded [] = []
decoded (d ∷ docs) = reply d ∷ decoded docs

module _ (M : MongoCollection) (B : Broker) where
  refresh_skips :
      (rs : RmqReceiverSender) (t : Time) (docs : List Document) (s : State M)
      → All IsSkipped docs
      → refresh M B rs t none (decoded docs) s ≡ (ok tt, s)
  unfolding refresh
  refresh_skips rs t [] s all = refl
  refresh_skips rs t (d ∷ docs) s ((why, r), all) = ground (arith, r, refresh_skips rs t docs s all)

  module _ (md : MongoDaemon) (docs : List Document) (all : All IsSkipped docs) where
    process_skips :
        (t : Time) (s : State M)
        → M.find
            (update_count
              (overall_count (M.estimated_document_count s.collection))
              md.daemon_update_percent)
            s.collection
          ≡ reply (decoded docs, none)
        → process_message M B md t s ≡ (ok tt, s)
    unfolding process_message
    process_skips t s h = ground (arith, h, refresh_skips md.rmq_receiver_sender t docs s all)

module _ (M : MongoCollection) where
  module _ (md : MongoDaemon) (docs : List Document) (all : All IsSkipped docs) where
    deliveries_skip :
        (msgs : List Turn) (s : State M) (acks : ℕ)
        → md.rmq_receiver_sender.uri_q ≢ md.rmq_receiver_sender.delayed_q
        → M.find
            (update_count
              (overall_count (M.estimated_document_count s.collection))
              md.daemon_update_percent)
            s.collection
          ≡ reply (decoded docs, none)
        → let out = deliveries M md msgs (s, acks) in
          (out.1.0.collection ≡ s.collection)
          × (count_key md.rmq_receiver_sender.uri_q out.1.0.queue
              ≡ count_key md.rmq_receiver_sender.uri_q s.queue)
    unfolding deliveries publish_delayed
    deliveries_skip [] s acks ne h = (refl, refl)
    deliveries_skip (t ∷ msgs) s acks ne h =
        let rs = md.rmq_receiver_sender in
        elim (Option-cases (t.broker (delayed rs))) [
          | inl takes ↦
              let s' : State M = record s { queue = s.queue ++ (delayed rs ∷ []) } in
              ground (
                arith,
                takes,
                process_skips M t.broker md docs all t.time s h,
                deliveries_skip msgs s' (suc acks) ne h,
                count_key-append rs.uri_q s.queue (delayed rs ∷ []),
                eq_iff rs.delayed_q rs.uri_q,
              )
          | inr (e, refuses) ↦ ground (
            arith,
            refuses,
            process_skips M t.broker md docs all t.time s h,
            deliveries_skip msgs s (suc acks) ne h,
          )
        ]

  -- When all the documents that a run of the daemon finds lack a field that it needs, no run
  -- changes the collection or publishes a token's task, however many deliveries come in and
  -- whatever the broker says, where the tokens' queue has another name than the delayed one.
  pub skipped_documents_starve :
      (md : MongoDaemon) (docs : List Document) (msgs : List Turn) (s : State M)
      → All IsSkipped docs
      → md.rmq_receiver_sender.uri_q ≢ md.rmq_receiver_sender.delayed_q
      → M.find
          (update_count
            (overall_count (M.estimated_document_count s.collection))
            md.daemon_update_percent)
          s.collection
        ≡ reply (decoded docs, none)
      → let out = run M (ok msgs) md s in
        (out.1.0.collection ≡ s.collection)
        × (count_key md.rmq_receiver_sender.uri_q out.1.0.queue
            ≡ count_key md.rmq_receiver_sender.uri_q s.queue)
  unfolding run
  skipped_documents_starve md docs msgs s all ne h = deliveries_skip md docs all msgs s 0 ne h
