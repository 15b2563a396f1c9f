-- ===== src/Tests/Rounds.antt =====
-- Runs of the daemon on a collection of two documents, of which it finds the older one first.
use Prim.Native.String.{String}
use mathlib.Core.Path.{subst}
use dwh.Base.{
  ℕ, ◌+◌, ◌≤◌, ◌≡◌, ◌≢◌, refl, ap, sym, ◌∙◌, true, false, Option, none, some, List, [], ◌∷◌, arith,
  inl, inr, length, str_eq, eq_iff, ltb, ◌==◌, if◌then◌else◌, Bool-cases,
}
use dwh.Common.Types.{Time}
use dwh.Env.Calls.{Reply, reply, failure}
use dwh.MongoDaemon.{
  text, other, Field, plain, embedded, Document, MongoCollection, MongoDaemon, State, read_document,
  update_count, process_message, refresh, refresh_one,
}
use dwh.MongoDaemon.Channel.{publish_uri_task}
use dwh.MongoDaemon.Oldest.{min, is_before, Distinct, count_stale, FindsOldest}
use dwh.MongoDaemon.Refresh.{tasks_of}
use dwh.MongoDaemon.Rounds.{ended, next_run, nothing_stays_stale}
use dwh.Tests.Daemon.{broker, data_of, queues}

-- The times at which the documents "a" and "b" were checked.
pub record Two : Type 0 where
  pub a : Time
  pub b : Time

pub data Which : Type 0 where
  first : Which
  second : Which
  neither : Which

abbrev which_text : String → Which
which_text k = if str_eq k "a" then first else if str_eq k "b" then second else neither

abbrev which : Field → Which
which (plain (text k)) = which_text k
which (plain (other k)) = neither
which (embedded m) = neither

abbrev at : Two → Which → Option Time
at c first = some c.a
at c second = some c.b
at c neither = none

abbrev set : Time → Two → Which → Reply (ℕ × ℕ) × Two
set t c first = (reply (1, 1), record c { a = t })
set t c second = (reply (1, 1), record c { b = t })
set t c neither = (reply (0, 0), c)

abbrev picked : ℕ → Two → List (Reply Document)
picked n c =
    let x = if ltb c.b c.a then "b" else "a" in
    let y = if ltb c.b c.a then "a" else "b" in
    if n == 1 then reply (data_of x) ∷ [] else reply (data_of x) ∷ reply (data_of y) ∷ []

abbrev two_documents : MongoCollection
two_documents = record {
  Collection = Two;
  estimated_document_count = λ c. reply 2;
  find = λ n c. reply (picked n c, none);
  update_one = λ f t c. set t c (which f);
}

abbrev two_stale : Time → Two → ℕ
two_stale t0 c = (if ltb c.a t0 then 1 else 0) + (if ltb c.b t0 then 1 else 0)

which-eq :
    (f : Field)
    → (which f ≡ first → f ≡ plain (text "a")) × (which f ≡ second → f ≡ plain (text "b"))
which-eq (plain (text k)) = ground (arith, eq_iff k "a", eq_iff k "b")
which-eq (plain (other k)) = ((λ h. cc), (λ h. cc))
which-eq (embedded m) = ((λ h. cc), (λ h. cc))

set_stale :
    (t0 t : Time) (w : Which) (c : Two) (n m : ℕ)
    → t0 ≤ t
    → (set t c w).0 ≡ reply (n, m)
    → n ≢ 0
    → n ≡ m
    → two_stale t0 (set t c w).1 + (if is_before t0 (at c w) then 1 else 0) ≡ two_stale t0 c
set_stale t0 t first c n m later h k e = ground arith
set_stale t0 t second c n m later h k e = ground arith
set_stale t0 t neither c n m later h k e = ground arith

set_others :
    (id j : Field) (t : Time) (c : Two)
    → id ≢ j
    → at (set t c (which id)).1 (which j) ≡ at c (which j)
set_others id j t c ne = go (which id) (which j) refl refl
  where
    go : (v w : Which) → which id ≡ v → which j ≡ w → at (set t c v).1 w ≡ at c w
    go first first e f = absurd (ne ((which-eq id).0 e ∙ sym ((which-eq j).0 f)))
    go second second e f = absurd (ne ((which-eq id).1 e ∙ sym ((which-eq j).1 f)))
    go first second e f = refl
    go first neither e f = refl
    go second first e f = refl
    go second neither e f = refl
    go neither w e f = refl

abbrev checked : Field → Two → Option Time
checked f c = at c (which f)

-- What is found, by which document is the older one and whether only one is asked for.
picked_cases :
    (P : List (Reply Document) → Type 0) (n : ℕ) (c : Two)
    → (n ≡ 1 → ltb c.b c.a ≡ true → P (reply (data_of "b") ∷ []))
    → (n ≡ 1 → ltb c.b c.a ≡ false → P (reply (data_of "a") ∷ []))
    → (n ≢ 1 → P (reply (data_of "b") ∷ reply (data_of "a") ∷ []))
    → (n ≢ 1 → P (reply (data_of "a") ∷ reply (data_of "b") ∷ []))
    → P (picked n c)
picked_cases P n c one_b one_a two_b two_a = elim (Bool-cases (n == 1)) [
  | inl one ↦ elim (Bool-cases (ltb c.b c.a)) [
    | inl older ↦ rw (one, older) (one_b (ground (arith, one)) older)
    | inr older ↦ rw (one, older) (one_a (ground (arith, one)) older)
  ]
  | inr more ↦ elim (Bool-cases (ltb c.b c.a)) [
    | inl older ↦ rw (more, older) (two_b (λ e. ground (arith, more)))
    | inr older ↦ rw (more, older) (two_a (λ e. ground (arith, more)))
  ]
]

fields_differ : plain (text "a") ≢ plain (text "b")
fields_differ h = let e : first ≡ second = ap which h in cc

picked-Distinct : (n : ℕ) (c : Two) → Distinct (tasks_of (picked n c))
unfolding read_document
picked-Distinct n c =
    picked_cases (λ docs. Distinct (tasks_of docs)) n c (λ e h. (tt, tt)) (λ e h. (tt, tt))
      (λ e. (((λ h. fields_differ (sym h)), tt), (tt, tt))) (λ e. ((fields_differ, tt), (tt, tt)))

picked_readable : (n : ℕ) (c : Two) → length (tasks_of (picked n c)) ≡ length (picked n c)
unfolding read_document
picked_readable n c =
    picked_cases (λ docs. length (tasks_of docs) ≡ length docs) n c (λ e h. refl) (λ e h. refl)
      (λ e. refl) (λ e. refl)

picked_stale :
    (t0 : Time) (n : ℕ) (c : Two)
    → n ≢ 0
    → count_stale checked t0 c (tasks_of (picked n c)) ≡ min n (two_stale t0 c)
unfolding read_document
picked_stale t0 n c some_asked =
    picked_cases (λ docs. count_stale checked t0 c (tasks_of docs) ≡ min n (two_stale t0 c)) n c
      (λ e h. ground (arith, e, h)) (λ e h. ground (arith, e, h))
      (λ e. ground (arith, e, some_asked)) (λ e. ground (arith, e, some_asked))

-- What a search returns is what was picked.
found_picked :
    (n : ℕ) (c : Two) (docs : List (Reply Document)) (e : Option String)
    → two_documents.find n c ≡ reply (docs, e)
    → picked n c ≡ docs
found_picked n c docs e h = ap (λ r. elim r [ reply x ↦ x.0 | failure f ↦ [] ]) h

abbrev finds_oldest : FindsOldest two_documents
finds_oldest = record {
  checked = checked;
  stale = two_stale;
  update_stale = λ t0 t f c n m later h k e. set_stale t0 t (which f) c n m later h k e;
  update_others = λ f j t c ne. set_others f j t c ne;
  update_counted = λ f t c. refl;
  find_distinct = λ n c docs e h.
      subst (λ l. Distinct (tasks_of l)) (found_picked n c docs e h) (picked-Distinct n c);
  find_stale = λ t0 n c docs e some_asked h readable.
      subst (λ l. count_stale checked t0 c (tasks_of l) ≡ min n (two_stale t0 c))
        (found_picked n c docs e h) (picked_stale t0 n c some_asked);
}

abbrev half_daemon : MongoDaemon
half_daemon = record { rmq_receiver_sender = queues; daemon_update_percent = 50 }

abbrev before : State two_documents
before = record { collection = record { a = 3; b = 2 }; queue = [] }

abbrev after : Time → State two_documents → State two_documents
after t s = (process_message two_documents broker half_daemon t s).1

nothing_stays_stale_example : two_stale 5 (after 8 (after 7 before)).collection ≡ 0
unfolding update_count process_message refresh read_document refresh_one publish_uri_task
nothing_stays_stale_example =
    nothing_stays_stale two_documents broker half_daemon finds_oldest
      (λ n c docs e h.
        subst (λ l. length (tasks_of l) ≡ length l) (found_picked n c docs e h)
          (picked_readable n c))
      5 (7 ∷ 8 ∷ []) before (after 8 (after 7 before))
      (next_run {queue = (after 7 before).queue} refl
        (next_run {queue = (after 8 (after 7 before)).queue} refl ended))
      (omega arith, (omega arith, tt)) (λ h. cc) (omega arith)
