-- ===== src/MongoDaemon/Memory.antt =====
-- A collection in memory that keeps the promises of MongoDaemon/Refresh.antt: each document has the
-- time at which it was last checked beside it, and the cursor yields them in the order in which
-- they are kept.
use Prim.Native.String.{String}
use dwh.Base.{
  ℕ, zero, suc, ◌≡◌, ◌≢◌, ◌⊎◌, refl, Bool, false, Option, none, some, List, [], ◌∷◌, map, arith,
  inl, length, str_eq, if◌then◌else◌, ◌==◌,
}
use dwh.Common.Types.{Time}
use dwh.Env.Calls.{Reply, reply}
use dwh.MongoDaemon.{text, other, Field, plain, embedded, Document, MongoCollection}
use dwh.MongoDaemon.Refresh.{KeepsTimes}

pub record Entry : Type 0 where
  pub id : String
  pub document : Document
  pub last_checked : Time

-- Keys that are texts; no other field is the key of a document here.
abbrev pub key_of : Field → Option String
key_of (plain (text s)) = some s
key_of (plain (other s)) = none
key_of (embedded m) = none

abbrev pub has_key : Field → Entry → Bool
has_key f e = elim (key_of f) [ none ↦ false | some k ↦ str_eq e.id k ]

abbrev pub checked : Field → List Entry → Option Time
checked f [] = none
checked f (e ∷ l) = let rest = checked f l in if has_key f e then some e.last_checked else rest

abbrev pub mark : Field → Time → List Entry → List Entry
mark f t [] = []
mark f t (e ∷ l) =
    let rest = mark f t l in if has_key f e then record e { last_checked = t } ∷ l else e ∷ rest

abbrev pub matches : Field → List Entry → ℕ
matches f [] = 0
matches f (e ∷ l) = let rest = matches f l in if has_key f e then 1 else rest

abbrev first : ℕ → List Entry → List (Reply Document)
first zero l = []
first (suc n) [] = []
first (suc n) (e ∷ l) = reply e.document ∷ first n l

abbrev pub memory : MongoCollection
memory = record {
  Collection = List Entry;
  estimated_document_count = λ l. reply (length l);
  find = λ n l. reply (if n == 0 then map (λ e. reply e.document) l else first n l, none);
  update_one = λ f t l. (reply (matches f l, matches f l), mark f t l);
}

pub checked-mark :
    (f : Field) (t : Time) (l : List Entry) → matches f l ≢ 0 → checked f (mark f t l) ≡ some t
checked-mark f t [] h = absurd (h refl)
checked-mark f t (e ∷ l) h = ground (arith, checked-mark f t l)

pub memory_updates :
    (f : Field) (t : Time) (l : List Entry) (n m : ℕ)
    → (memory.update_one f t l).0 ≡ reply (n, m)
    → n ≢ 0
    → checked f (memory.update_one f t l).1 ≡ some t
memory_updates f t l n m e h = checked-mark f t l (λ z. h (ground (arith, e, z)))

pub mark_keeps :
    (f g : Field) (t : Time) (l : List Entry)
    → (checked g (mark f t l) ≡ checked g l) ⊎ (checked g (mark f t l) ≡ some t)
mark_keeps f g t [] = inl refl
mark_keeps f g t (e ∷ l) = ground (arith, mark_keeps f g t l)

abbrev pub memory_keeps_times : KeepsTimes memory
memory_keeps_times = record {
  checked = checked;
  updates = λ f t l n m e h k. memory_updates f t l n m e h;
  keeps = λ f g t l. mark_keeps f g t l;
}
