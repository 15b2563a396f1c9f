-- ===== src/Database/Fitting.antt =====
-- The rows that a new foreign key would have to hold for, as tables are created and dropped.
use dwh.Base.{◌≡◌, refl, List, [], ◌∷◌, ◌++◌, arith, true, false, not, Bool-cases, inl, inr, select}
use dwh.Database.Tables.{Table, nfts, ForeignKey, Tables}
use dwh.Database.Schema.{
  same, same_key, contains_key, has_no_rows, fits, clear, add_table, remove_table, add_key,
}

has_no_rows-clear : (b a : Table) (t : Tables) → same b a ≡ true → has_no_rows b (clear a t) ≡ true
has_no_rows-clear nfts a t h = ground arith
has_no_rows-clear b a t h = ground arith

has_no_rows-remove_table :
    (b a : Table) (t : Tables) → has_no_rows b t ≡ true → has_no_rows b (remove_table a t) ≡ true
has_no_rows-remove_table nfts a t h = ground arith
has_no_rows-remove_table b a t h = ground arith

has_no_rows-add_table : (b a : Table) (t : Tables) → has_no_rows b (add_table a t) ≡ has_no_rows b t
has_no_rows-add_table nfts a t = refl
has_no_rows-add_table b a t = refl

has_no_rows-add_key :
    (b : Table) (k : ForeignKey) (t : Tables) → has_no_rows b (add_key k t) ≡ has_no_rows b t
has_no_rows-add_key nfts k t = ground arith
has_no_rows-add_key b k t = ground arith

contains_key-append :
    (k j : ForeignKey) (ks : List ForeignKey)
    → contains_key k ks ≡ true
    → contains_key k (ks ++ (j ∷ [])) ≡ true
contains_key-append k j [] h = ground arith
contains_key-append k j (i ∷ ks) h = elim (Bool-cases (same_key i k)) [
  | inl e ↦ rw e refl
  | inr e ↦ rw e (contains_key-append k j ks (rw e at h))
]

-- A key of another table is still there after a table has gone with its own keys.
contains_key-select :
    (a : Table) (k : ForeignKey) (ks : List ForeignKey)
    → ((j : ForeignKey) → same_key j k ≡ true → same j.source a ≡ false)
    → contains_key k ks ≡ true
    → contains_key k (select (λ j. not (same j.source a)) ks) ≡ true
contains_key-select a k [] other h = ground arith
contains_key-select a k (j ∷ ks) other h =
    let rest = contains_key-select a k ks other in
    elim (Bool-cases (same_key j k)) [
      | inl e ↦ ground (arith, other j e)
      | inr e ↦ ground (arith, rest)
    ]

other_source :
    (a : Table) (k j : ForeignKey)
    → same k.source a ≡ false
    → same_key j k ≡ true
    → same j.source a ≡ false
other_source a k j h e = ground (arith)

pub fits-remove_table :
    (k : ForeignKey) (a : Table) (t : Tables) → fits k t ≡ true → fits k (remove_table a t) ≡ true
fits-remove_table k a t h = elim (Bool-cases (same k.source a)) [
  | inl e ↦ ground (arith, has_no_rows-clear k.source a t e)
  | inr e ↦ ground (
    arith,
    contains_key-select a k t.foreign_keys (λ j. other_source a k j e),
    has_no_rows-remove_table k.source a t,
  )
]

pub fits-add_table :
    (k : ForeignKey) (a : Table) (t : Tables) → fits k t ≡ true → fits k (add_table a t) ≡ true
fits-add_table k a t h = ground (arith, has_no_rows-add_table k.source a t)

pub fits-add_key : (k j : ForeignKey) (t : Tables) → fits k t ≡ true → fits k (add_key j t) ≡ true
fits-add_key k j t h =
    ground (arith, has_no_rows-add_key k.source j t, contains_key-append k j t.foreign_keys)
