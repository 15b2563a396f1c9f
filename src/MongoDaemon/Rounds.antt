-- ===== src/MongoDaemon/Rounds.antt =====
-- Several runs of x/mongoDaemon/service.go, one after the other: they get round to every document.
use Prim.Native.String.{String}
use mathlib.Core.Path.{subst}
use dwh.Base.{
  ℕ, ◌-◌, ◌*◌, ◌≤◌, ◌≡◌, ◌≢◌, refl, ap, sym, ◌∙◌, Option, none, some, List, [], ◌∷◌, arith, inl,
  inr, length, All,
}
use dwh.Common.Types.{Time}
use dwh.Common.Queue.{TaskInfo}
use dwh.Env.Action.{ok}
use dwh.Env.Calls.{Reply, reply, failure, Reply-cases}
use dwh.MongoDaemon.Channel.{Sent, Broker, publish_uri_task}
use dwh.MongoDaemon.{
  Field, Document, MongoCollection, MongoDaemon, read_document, update_count, overall_count, State,
  refresh_one, refresh, process_message,
}
use dwh.MongoDaemon.Refresh.{tasks_of, Reading-cases}
use dwh.MongoDaemon.Oldest.{FindsOldest, run_refreshes_oldest}

module _ (M : MongoCollection) (B : Broker) (md : MongoDaemon) where
  -- How many documents a run asks for.
  abbrev pub asked : State M → ℕ
  asked s =
      update_count (overall_count (M.estimated_document_count s.collection))
        md.daemon_update_percent

  -- Runs that end without an error. What is on the queues may change between them.
  pub data Runs : List Time → State M → State M → Type 0 where
    ended : {s : State M} → Runs [] s s
    next_run :
        {t : Time} {ts : List Time} {s s' : State M} {queue : List Sent}
        → (process_message M B md t s).0 ≡ ok tt
        → Runs ts (record ((process_message M B md t s).1) { queue = queue }) s'
        → Runs (t ∷ ts) s s'

  module _ (K : FindsOldest M) where
    one_keeps_counted :
        (t : Time) (id : Field) (task : TaskInfo) (s : State M)
        → M.estimated_document_count
            (refresh_one M B md.rmq_receiver_sender t id task s).1.collection
          ≡ M.estimated_document_count s.collection
    unfolding refresh_one publish_uri_task
    one_keeps_counted t id task s = ground (arith, K.update_counted id t s.collection)

    refresh_keeps_counted :
        (t : Time) (e : Option String) (docs : List (Reply Document)) (s : State M)
        → M.estimated_document_count (refresh M B md.rmq_receiver_sender t e docs s).1.collection
          ≡ M.estimated_document_count s.collection
    unfolding refresh
    refresh_keeps_counted t (some e) [] s = refl
    refresh_keeps_counted t none [] s = refl
    refresh_keeps_counted t e (failure f ∷ docs) s = refl
    refresh_keeps_counted t e (reply d ∷ docs) s = elim (Reading-cases (read_document d)) [
      | inl (why, r) ↦ ground (arith, r, refresh_keeps_counted t e docs s)
      | inr (id, task, r) ↦
          let s' = (refresh_one M B md.rmq_receiver_sender t id task s).1 in
          ground (arith, r, one_keeps_counted t id task s, refresh_keeps_counted t e docs s')
    ]

    process_keeps_counted :
        (t : Time) (s : State M)
        → M.estimated_document_count (process_message M B md t s).1.collection
          ≡ M.estimated_document_count s.collection
    unfolding process_message
    process_keeps_counted t s = elim (Reply-cases (M.find (asked s) s.collection)) [
      | inl (e, failed) ↦ ground (arith, failed)
      | inr ((docs, e), done) ↦ ground (arith, done, refresh_keeps_counted t e docs s)
    ]

    found_ok :
        (t : Time) (s : State M)
        → (process_message M B md t s).0 ≡ ok tt
        → (docs : List (Reply Document)) × (e : Option String) × (M.find (asked s) s.collection
            ≡ reply (docs, e))
    unfolding process_message
    found_ok t s h = elim (Reply-cases (M.find (asked s) s.collection)) [
      | inl (e, failed) ↦ absurd (ground (arith, failed, h))
      | inr ((docs, e), done) ↦ (docs, e, done)
    ]

    module _
        (readable : (n : ℕ) (c : M.Collection) (docs : List (Reply Document)) (e : Option String)
          → M.find n c ≡ reply (docs, e)
          → length (tasks_of docs) ≡ length docs) where
      one_run :
          (t0 t : Time) (s : State M)
          → t0 ≤ t
          → asked s ≢ 0
          → (process_message M B md t s).0 ≡ ok tt
          → K.stale t0 (process_message M B md t s).1.collection ≡ K.stale t0 s.collection - asked s
      one_run t0 t s later some_asked h =
          let (docs, e, finds) = found_ok t s h in
          let fewer =
            run_refreshes_oldest M B K md t0 t s docs e later some_asked finds
              (readable (asked s) s.collection docs e finds) h in
          ground (arith, fewer)

      -- When runs of the daemon at times not before a given one follow each other without an
      -- error, each asks for at least one document, and together they ask for as many as there are
      -- documents that were checked before that time, then in the end there is no such document
      -- left, provided that every document that is found has the daemon's fields, that an update
      -- that matches and modifies gives a document its time, leaves all others and the number of
      -- documents, and that a search finds no document twice and as many of those that were
      -- checked before any time as there are, up to its limit.
      pub nothing_stays_stale :
          (t0 : Time) (ts : List Time) (s s' : State M)
          → Runs ts s s'
          → All (λ t. t0 ≤ t) ts
          → asked s ≢ 0
          → K.stale t0 s.collection ≤ length ts * asked s
          → K.stale t0 s'.collection ≡ 0
      nothing_stays_stale t0 _ s s' ended all some_asked enough = omega (arith, enough)
      nothing_stays_stale t0 (t ∷ ts) s s' (next_run {queue = queue} h runs) all some_asked enough =
          let s1 = (process_message M B md t s).1 in
          let s2 : State M = record s1 { queue = queue } in
          let fewer = one_run t0 t s all.0 some_asked h in
          let same : asked s2 ≡ asked s =
            ap (λ o. update_count (overall_count o) md.daemon_update_percent)
              (process_keeps_counted t s) in
          nothing_stays_stale t0 ts s2 s' runs all.1 (λ e. some_asked (sym same ∙ e))
            (subst (λ n. K.stale t0 s1.collection ≤ length ts * n) (sym same)
              (grind (arith, fewer, enough)))
