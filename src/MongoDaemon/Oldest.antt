-- ===== src/MongoDaemon/Oldest.antt =====
-- A run of x/mongoDaemon/service.go refreshes the documents that were checked the longest time ago.
use Prim.Native.String.{String}
use mathlib.Core.Path.{subst}
use dwh.Base.{
  ℕ, ◌+◌, ◌≤◌, ◌≡◌, ◌≢◌, refl, ap, sym, ◌∙◌, Bool, false, Option, none, some, List, [], ◌∷◌, ⊤,
  arith, inl, inr, ltb, if◌then◌else◌, length, All,
}
use dwh.Common.Types.{Time}
use dwh.Common.Queue.{TaskInfo}
use dwh.Env.Action.{ok, Outcome-cases}
use dwh.Env.Calls.{Reply, reply, failure, Reply-cases}
use dwh.MongoDaemon.Channel.{Broker, RmqReceiverSender, publish_uri_task}
use dwh.MongoDaemon.{
  Field, Document, MongoCollection, MongoDaemon, read_document, found, update_count, overall_count,
  State, refresh_one, refresh, process_message,
}
use dwh.MongoDaemon.Refresh.{tasks_of, Reading-cases}

abbrev pub min : ℕ → ℕ → ℕ
min a b = if ltb a b then a else b

-- A time before another; what has no time is not stale.
abbrev pub is_before : Time → Option Time → Bool
is_before t0 none = false
is_before t0 (some t) = ltb t t0

-- No two tasks are of the same document.
abbrev pub Distinct : List (Field × TaskInfo) → Type 0
Distinct [] = ⊤
Distinct (x ∷ xs) = All (λ y. x.0 ≢ y.0) xs × Distinct xs

-- How many of some tasks' documents were checked before a time.
abbrev pub count_stale :
    {C : Type 0} → (Field → C → Option Time) → Time → C → List (Field × TaskInfo) → ℕ
count_stale checked t0 c [] = 0
count_stale checked t0 c (x ∷ xs) =
    let rest = count_stale checked t0 c xs in
    if is_before t0 (checked x.0 c) then 1 + rest else rest

-- What the collection promises of the times of checks and of the order in which it finds documents.
-- `stale` is the number of documents that were checked before a time. An update that matches and
-- modifies gives a document its time and leaves all others; a search up to a limit finds no document
-- twice, and as many of the stale documents as there are, up to the limit, where each document that
-- it finds has the daemon's fields.
pub record FindsOldest (M : MongoCollection) : Type 0 where
  pub checked : Field → M.Collection → Option Time
  pub stale : Time → M.Collection → ℕ
  pub update_stale :
      (t0 t : Time) (id : Field) (c : M.Collection) (matched modified : ℕ)
      → t0 ≤ t
      → (M.update_one id t c).0 ≡ reply (matched, modified)
      → matched ≢ 0
      → matched ≡ modified
      → stale t0 (M.update_one id t c).1 + (if is_before t0 (checked id c) then 1 else 0)
        ≡ stale t0 c
  pub update_others :
      (id j : Field) (t : Time) (c : M.Collection)
      → id ≢ j
      → checked j (M.update_one id t c).1 ≡ checked j c
  pub update_counted :
      (id : Field) (t : Time) (c : M.Collection)
      → M.estimated_document_count (M.update_one id t c).1 ≡ M.estimated_document_count c
  pub find_distinct :
      (n : ℕ) (c : M.Collection) (docs : List (Reply Document)) (e : Option String)
      → M.find n c ≡ reply (docs, e)
      → Distinct (tasks_of docs)
  pub find_stale :
      (t0 : Time) (n : ℕ) (c : M.Collection) (docs : List (Reply Document)) (e : Option String)
      → n ≢ 0
      → M.find n c ≡ reply (docs, e)
      → length (tasks_of docs) ≡ length docs
      → count_stale checked t0 c (tasks_of docs) ≡ min n (stale t0 c)

module _ (M : MongoCollection) (B : Broker) (K : FindsOldest M) (rs : RmqReceiverSender) where
  count_stale-update :
      (t0 t : Time) (id : Field) (c : M.Collection) (tasks : List (Field × TaskInfo))
      → All (λ y. id ≢ y.0) tasks
      → count_stale K.checked t0 (M.update_one id t c).1 tasks ≡ count_stale K.checked t0 c tasks
  count_stale-update t0 t id c [] all = refl
  count_stale-update t0 t id c (x ∷ tasks) (ne, all) =
      let same = K.update_others id x.0 t c ne in
      let rest = count_stale-update t0 t id c tasks all in ground (arith, same, rest)

  one_fresh :
      (t0 t : Time) (id : Field) (task : TaskInfo) (s : State M)
      → t0 ≤ t
      → (refresh_one M B rs t id task s).0 ≡ ok tt
      → (K.stale t0 (refresh_one M B rs t id task s).1.collection
            + (if is_before t0 (K.checked id s.collection) then 1 else 0)
          ≡ K.stale t0 s.collection)
        × ((refresh_one M B rs t id task s).1.collection ≡ (M.update_one id t s.collection).1)
  unfolding refresh_one publish_uri_task
  one_fresh t0 t id task s later h = elim (Reply-cases (M.update_one id t s.collection).0) [
    | inl (e, failed) ↦ absurd (ground (arith, failed, h))
    | inr ((n, m), done) ↦
        ground (arith, done, h, K.update_stale t0 t id s.collection n m later done)
  ]

  first_refreshed :
      (t : Time) (e : Option String) (d : Document) (docs : List (Reply Document)) (id : Field)
      (task : TaskInfo) (s : State M)
      → read_document d ≡ found id task
      → (refresh M B rs t e (reply d ∷ docs) s).0 ≡ ok tt
      → ((refresh_one M B rs t id task s).0 ≡ ok tt)
        × (refresh M B rs t e (reply d ∷ docs) s
            ≡ refresh M B rs t e docs (refresh_one M B rs t id task s).1)
  unfolding refresh
  first_refreshed t e d docs id task s r h =
      elim (Outcome-cases (refresh_one M B rs t id task s).0) [
        | inl (_, done) ↦ (done, ground (arith, r, done))
        | inr (inl (x, failed)) ↦ absurd (ground (arith, r, failed, h))
        | inr (inr failed) ↦ absurd (ground (arith, r, failed, h))
      ]

  -- After the loop the stale documents among those that it went through are no longer stale.
  refresh_fresh :
      (t0 t : Time) (e : Option String) (docs : List (Reply Document)) (s : State M)
      → t0 ≤ t
      → Distinct (tasks_of docs)
      → (refresh M B rs t e docs s).0 ≡ ok tt
      → K.stale t0 (refresh M B rs t e docs s).1.collection
          + count_stale K.checked t0 s.collection (tasks_of docs)
        ≡ K.stale t0 s.collection
  unfolding refresh
  refresh_fresh t0 t (some e) [] s later distinct h = omega arith
  refresh_fresh t0 t none [] s later distinct h = omega arith
  refresh_fresh t0 t e (failure f ∷ docs) s later distinct h = omega arith
  refresh_fresh t0 t e (reply d ∷ docs) s later distinct h =
      elim (Reading-cases (read_document d)) [
        | inl (why, r) ↦
            let same : tasks_of (reply d ∷ docs) ≡ tasks_of docs = ground (arith, r) in
            let ends : refresh M B rs t e (reply d ∷ docs) s ≡ refresh M B rs t e docs s =
              ground (arith, r) in
            let rest =
              refresh_fresh t0 t e docs s later (subst Distinct same distinct)
                (ap (λ x. x.0) (sym ends) ∙ h) in
            rw (ends, same) rest
        | inr (id, task, r) ↦
            let s' = (refresh_one M B rs t id task s).1 in
            let same : tasks_of (reply d ∷ docs) ≡ (id, task) ∷ tasks_of docs = ground (arith, r) in
            let (others, distinct') = subst Distinct same distinct in
            let (done, ends) = first_refreshed t e d docs id task s r h in
            let (fresh, moved) = one_fresh t0 t id task s later done in
            let rest =
              refresh_fresh t0 t e docs s' later distinct' (ap (λ x. x.0) (sym ends) ∙ h) in
            let kept =
              ap (λ c. count_stale K.checked t0 c (tasks_of docs)) moved
              ∙ count_stale-update t0 t id s.collection (tasks_of docs) others in
            rw (ends, same) (ground (arith, fresh, rest, kept))
      ]

-- A run that ends without an error leaves as many fewer stale documents as it asks for, as long as
-- there are any.
pub run_refreshes_oldest :
    (M : MongoCollection) (B : Broker) (K : FindsOldest M) (md : MongoDaemon) (t0 t : Time)
    (s : State M) (docs : List (Reply Document)) (e : Option String)
    → let n =
        update_count
          (overall_count (M.estimated_document_count s.collection))
          md.daemon_update_percent in
      t0 ≤ t
      → n ≢ 0
      → M.find n s.collection ≡ reply (docs, e)
      → length (tasks_of docs) ≡ length docs
      → (process_message M B md t s).0 ≡ ok tt
      → K.stale t0 (process_message M B md t s).1.collection + min n (K.stale t0 s.collection)
        ≡ K.stale t0 s.collection
unfolding process_message
run_refreshes_oldest M B K md t0 t s docs e later some_asked finds readable h =
    let rs = md.rmq_receiver_sender in
    let n =
      update_count (overall_count (M.estimated_document_count s.collection))
        md.daemon_update_percent in
    let ends : process_message M B md t s ≡ refresh M B rs t e docs s = ground (arith, finds) in
    let all = K.find_stale t0 n s.collection docs e some_asked finds readable in
    let fresh =
      refresh_fresh M B K rs t0 t e docs s later (K.find_distinct n s.collection docs e finds)
        (ap (λ x. x.0) (sym ends) ∙ h) in
    ap (λ x. K.stale t0 x.1.collection + min n (K.stale t0 s.collection)) ends
    ∙ (ap (λ x. K.stale t0 (refresh M B rs t e docs s).1.collection + x) (sym all) ∙ fresh)
