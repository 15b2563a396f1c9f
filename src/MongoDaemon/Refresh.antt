-- ===== src/MongoDaemon/Refresh.antt =====
-- What `processMessage` of x/mongoDaemon/service.go has marked and published, however it ends.
use Prim.Native.String.{String}
use mathlib.Core.List.{append-nil, append_assoc}
use dwh.Base.{
  ℕ, ◌≡◌, ◌≢◌, ◌⊎◌, refl, ap, sym, ◌∙◌, Option, none, some, List, [], ◌∷◌, ◌++◌, ⊤, map, arith, inl,
  inr, All,
}
use dwh.Common.Types.{Time}
use dwh.Common.Queue.{TaskInfo}
use dwh.Env.Action.{Outcome, ok, Outcome-cases}
use dwh.Env.Calls.{Reply, reply, failure, Reply-cases}
use dwh.MongoDaemon.Channel.{Sent, Broker, RmqReceiverSender, uri_task, publish_uri_task}
use dwh.MongoDaemon.{
  Field, Document, MongoCollection, MongoDaemon, Reading, skipped, found, read_document,
  update_count, overall_count, State, refresh_one, refresh, process_message,
}

-- What the collection promises: a document that was matched and modified has the new time, and no
-- document has another time than before but that one.
pub record KeepsTimes (M : MongoCollection) : Type 0 where
  pub checked : Field → M.Collection → Option Time
  pub updates :
      (id : Field) (t : Time) (c : M.Collection) (matched modified : ℕ)
      → (M.update_one id t c).0 ≡ reply (matched, modified)
      → matched ≢ 0
      → matched ≡ modified
      → checked id (M.update_one id t c).1 ≡ some t
  pub keeps :
      (id j : Field) (t : Time) (c : M.Collection)
      → (checked j (M.update_one id t c).1 ≡ checked j c)
        ⊎ (checked j (M.update_one id t c).1 ≡ some t)

-- The tasks that are made of the documents that a cursor yields, up to the first that cannot be
-- decoded; a document that lacks a field has none.
abbrev pub tasks_of : List (Reply Document) → List (Field × TaskInfo)
tasks_of [] = []
tasks_of (failure e ∷ docs) = []
tasks_of (reply d ∷ docs) = elim (read_document d) [
  | skipped _ ↦ tasks_of docs
  | found id task ↦ (id, task) ∷ tasks_of docs
]

abbrev pub sent_task : RmqReceiverSender → Field × TaskInfo → Sent
sent_task rs x = uri_task rs x.1.url x.1.owner x.1.token_id

pub Reading-cases :
    (r : Reading)
    → ((why : String) × (r ≡ skipped why))
      ⊎ ((id : Field) × (task : TaskInfo) × (r ≡ found id task))
Reading-cases (skipped why) = inl (why, refl)
Reading-cases (found id task) = inr (id, task, refl)

-- The documents that a message finds.
abbrev pub found_documents :
    (M : MongoCollection) (B : Broker) → MongoDaemon → State M → List (Reply Document)
found_documents M B md s =
    let overall = overall_count (M.estimated_document_count s.collection) in
    elim (M.find (update_count overall md.daemon_update_percent) s.collection) [
      | failure e ↦ []
      | reply (docs, e) ↦ docs
    ]

module _ (M : MongoCollection) (B : Broker) (K : KeepsTimes M) where
  -- The document of a task was checked at a time.
  abbrev pub IsChecked : Time → State M → Field × TaskInfo → Type 0
  IsChecked t s x = K.checked x.0 s.collection ≡ some t

  -- Some of the tasks have been published, the first ones, and their documents are marked; after
  -- an end without an error it is all of them.
  pub record Progress (rs : RmqReceiverSender) (t : Time) (tasks : List (Field × TaskInfo))
      (s : State M) (out : Outcome ⊤ × State M) : Type 0 where
    pub sent : List (Field × TaskInfo)
    pub left : List (Field × TaskInfo)
    pub split : tasks ≡ sent ++ left
    pub published : out.1.queue ≡ s.queue ++ map (sent_task rs) sent
    pub marked : All (IsChecked t out.1) sent
    pub complete : (left ≡ []) ⊎ (out.0 ≢ ok tt)

  keeps_IsChecked :
      (rs : RmqReceiverSender) (t : Time) (id : Field) (task : TaskInfo) (s : State M)
      (x : Field × TaskInfo)
      → IsChecked t s x
      → IsChecked t (refresh_one M B rs t id task s).1 x
  unfolding refresh_one publish_uri_task
  keeps_IsChecked rs t id task s x h = ground (arith, K.keeps id x.0 t s.collection, h)

  -- A document either is marked and has its task published, or nothing is published.
  one_step :
      (rs : RmqReceiverSender) (t : Time) (id : Field) (task : TaskInfo) (s : State M)
      → let out = refresh_one M B rs t id task s in
        ((out.0 ≡ ok tt)
          × (out.1.queue ≡ s.queue ++ (sent_task rs (id, task) ∷ []))
          × IsChecked t out.1 (id, task))
        ⊎ ((out.0 ≢ ok tt) × (out.1.queue ≡ s.queue))
  unfolding refresh_one publish_uri_task
  one_step rs t id task s = elim (Reply-cases (M.update_one id t s.collection).0) [
    | inl (e, failed) ↦ inr (ground (arith, failed))
    | inr ((n, m), done) ↦ ground (arith, done, K.updates id t s.collection n m done)
  ]

  module _ (rs : RmqReceiverSender) (t : Time) where
    stopped :
        (tasks : List (Field × TaskInfo)) (s : State M) (out : Outcome ⊤ × State M)
        → out.1.queue ≡ s.queue
        → out.0 ≢ ok tt
        → Progress rs t tasks s out
    stopped tasks s out q h = record {
      sent = [];
      left = tasks;
      split = refl;
      published = q ∙ sym (append-nil s.queue);
      marked = tt;
      complete = inr h;
    }

    -- One more task before the others.
    first_sent :
        (x : Field × TaskInfo) (tasks : List (Field × TaskInfo)) (s s' : State M)
        (out : Outcome ⊤ × State M)
        → s'.queue ≡ s.queue ++ (sent_task rs x ∷ [])
        → IsChecked t out.1 x
        → Progress rs t tasks s' out
        → Progress rs t (x ∷ tasks) s out
    first_sent x tasks s s' out q checked p = record {
      sent = x ∷ p.sent;
      left = p.left;
      split = ap (◌∷◌ x) p.split;
      published =
          p.published
          ∙ (ap (λ l. l ++ map (sent_task rs) p.sent) q
              ∙ append_assoc s.queue (sent_task rs x ∷ []) (map (sent_task rs) p.sent));
      marked = (checked, p.marked);
      complete = p.complete;
    }

    refresh-keeps_IsChecked :
        (e : Option String) (docs : List (Reply Document)) (s : State M) (x : Field × TaskInfo)
        → IsChecked t s x
        → IsChecked t (refresh M B rs t e docs s).1 x
    unfolding refresh
    refresh-keeps_IsChecked (some e) [] s x h = h
    refresh-keeps_IsChecked none [] s x h = h
    refresh-keeps_IsChecked e (failure f ∷ docs) s x h = h
    refresh-keeps_IsChecked e (reply d ∷ docs) s x h = elim (Reading-cases (read_document d)) [
      | inl (why, r) ↦ ground (arith, r, refresh-keeps_IsChecked e docs s x h)
      | inr (id, task, r) ↦
          let s' = (refresh_one M B rs t id task s).1 in
          let h' = keeps_IsChecked rs t id task s x h in
          ground (arith, r, h', refresh-keeps_IsChecked e docs s' x h')
    ]

    ends_early :
        (e : Option String) (docs : List (Reply Document)) (d : Document) (id : Field)
        (task : TaskInfo) (s : State M)
        → read_document d ≡ found id task
        → (refresh_one M B rs t id task s).0 ≢ ok tt
        → ((refresh M B rs t e (reply d ∷ docs) s).0 ≢ ok tt)
          × ((refresh M B rs t e (reply d ∷ docs) s).1 ≡ (refresh_one M B rs t id task s).1)
    unfolding refresh
    ends_early e docs d id task s r h = elim (Outcome-cases (refresh_one M B rs t id task s).0) [
      | inl (_, done) ↦ absurd (h done)
      | inr (inl (f, failed)) ↦ ground (arith, r, failed)
      | inr (inr failed) ↦ ground (arith, r, failed)
    ]

    refresh-Progress :
        (e : Option String) (docs : List (Reply Document)) (s : State M)
        → Progress rs t (tasks_of docs) s (refresh M B rs t e docs s)
    unfolding refresh
    refresh-Progress (some e) [] s = stopped [] s _ refl (λ h. cc)
    refresh-Progress none [] s = record {
      sent = [];
      left = [];
      split = refl;
      published = sym (append-nil s.queue);
      marked = tt;
      complete = inl refl;
    }
    refresh-Progress e (failure f ∷ docs) s = stopped [] s _ refl (λ h. cc)
    refresh-Progress e (reply d ∷ docs) s = elim (Reading-cases (read_document d)) [
      | inl (why, r) ↦
          let same : refresh M B rs t e (reply d ∷ docs) s ≡ refresh M B rs t e docs s =
            ground (arith, r) in
          let tasks : tasks_of (reply d ∷ docs) ≡ tasks_of docs = ground (arith, r) in
          rw (same, tasks) (refresh-Progress e docs s)
      | inr (id, task, r) ↦
          let one = refresh_one M B rs t id task s in
          let tasks : tasks_of (reply d ∷ docs) ≡ (id, task) ∷ tasks_of docs = ground (arith, r) in
          elim (one_step rs t id task s) [
            | inl (done, q, checked) ↦
                let same : refresh M B rs t e (reply d ∷ docs) s ≡ refresh M B rs t e docs one.1 =
                  ground (arith, r, done) in
                rw (same, tasks)
                  (first_sent (id, task) (tasks_of docs) s one.1 _ q
                    (refresh-keeps_IsChecked e docs one.1 (id, task) checked)
                    (refresh-Progress e docs one.1))
            | inr (failed, q) ↦
                let (fails, ends) = ends_early e docs d id task s r failed in
                rw tasks
                  (stopped ((id, task) ∷ tasks_of docs) s _ (ap (λ x. x.queue) ends ∙ q) fails)
          ]
    ]

  -- However `processMessage` ends, what it has published are the tasks of the first of the
  -- documents that it has found, in their order, and these documents are marked with the time of
  -- the run, provided that the collection sets the time of a document that it matches and
  -- modifies, and no other time than that; after an end without an error they are all of those
  -- documents, up to the first that cannot be decoded.
  pub process_message-Progress :
      (md : MongoDaemon) (t : Time) (s : State M)
      → Progress md.rmq_receiver_sender t
          (tasks_of (found_documents M B md s))
          s
          (process_message M B md t s)
  unfolding process_message
  process_message-Progress md t s =
      let overall = overall_count (M.estimated_document_count s.collection) in
      let rs = md.rmq_receiver_sender in
      elim (Reply-cases (M.find (update_count overall md.daemon_update_percent) s.collection)) [
        | inl (e, failed) ↦
            let none_found : found_documents M B md s ≡ [] = ground (arith, failed) in
            let ends : ((process_message M B md t s).0 ≢ ok tt)
                × ((process_message M B md t s).1 ≡ s) =
              ground (arith, failed) in
            rw none_found (stopped rs t [] s _ (ap (λ x. x.queue) ends.1) ends.0)
        | inr ((docs, e), done) ↦
            let all_found : found_documents M B md s ≡ docs = ground (arith, done) in
            let same : process_message M B md t s ≡ refresh M B rs t e docs s =
              ground (arith, done) in
            rw all_found (rw same (refresh-Progress rs t e docs s))
      ]
