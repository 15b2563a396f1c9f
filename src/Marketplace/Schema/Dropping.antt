-- ===== src/Marketplace/Schema/Dropping.antt =====
-- The tables and foreign keys after `Reset` of x/indexer/handlers/marketplace.go.
use Prim.Native.String.{String}
use dwh.Base.{
  ◌≡◌, refl, none, List, [], ◌∷◌, arith, Bool, true, false, not, ◌&&◌, ◌||◌, All, select,
  Bool-cases, inl, inr,
}
use dwh.Database.Tables.{
  Table, nfts, offers, auction_bids, fungible_tokens, fungible_token_transfers, users, txes,
  messages, ForeignKey, Tables,
}
use dwh.Database.Schema.{same, contains, refers, remove_table}
use dwh.Database.Gorm.{IsLawfulSchema}
use dwh.Env.Action.{World, ok}
use dwh.Env.Calls.{Env, Db}
use dwh.Marketplace.Schema.Fitting.{own_keys, OwnKeysFit, remove_table-AllFit}
use dwh.Marketplace.Schema.{drop_table, drop_tables, reset_tables, reset}

-- The references between tables that this program sets up.
abbrev pub may_refer : Table → Table → Bool
may_refer nfts a = same a users
may_refer offers a = same a nfts
may_refer auction_bids a = same a nfts
may_refer fungible_tokens a = same a users
may_refer fungible_token_transfers a = same a users || same a fungible_tokens
may_refer messages a = same a txes
may_refer _ a = false

-- Every foreign key is one of those, and none stands in a table that is gone.
abbrev pub IsFree : List Table → List ForeignKey → Type 0
IsFree gone = All (λ k. (may_refer k.source k.target && not (contains k.source gone)) ≡ true)

-- All tables that may refer to this one are gone.
abbrev safe : Table → List Table → Bool
safe a gone =
    (not (may_refer nfts a) || contains nfts gone)
    && ((not (may_refer offers a) || contains offers gone)
        && ((not (may_refer auction_bids a) || contains auction_bids gone)
            && ((not (may_refer fungible_tokens a) || contains fungible_tokens gone)
                && ((not (may_refer fungible_token_transfers a)
                      || contains fungible_token_transfers gone)
                    && (not (may_refer messages a) || contains messages gone)))))

pub same-eq : (s t : Table) → same s t ≡ true → s ≡ t
same-eq nfts t h = ground arith
same-eq s t h = ground arith

same_sym : (s t : Table) → same s t ≡ same t s
same_sym nfts t = ground arith
same_sym s t = ground arith

safe_lem :
    (s a : Table) (gone : List Table)
    → safe a gone ≡ true
    → may_refer s a ≡ true
    → contains s gone ≡ true
safe_lem nfts a gone h k = ground arith
safe_lem s a gone h k = ground arith

pub safe-refers :
    (a : Table) (gone : List Table) (ks : List ForeignKey)
    → safe a gone ≡ true
    → IsFree gone ks
    → refers a ks ≡ false
safe-refers a gone [] h f = refl
safe-refers a gone (k ∷ ks) h f = elim (Bool-cases (same k.target a)) [
  | inl e ↦
      let target : k.target ≡ a = same-eq k.target a e in
      let there = safe_lem k.source a gone h in ground (arith, there, f.0)
  | inr e ↦ ground (arith, safe-refers a gone ks h f.1)
]

pub select-IsFree :
    (a : Table) (gone : List Table) (ks : List ForeignKey)
    → IsFree gone ks
    → IsFree (a ∷ gone) (select (λ k. not (same k.source a)) ks)
select-IsFree a gone [] f = tt
select-IsFree a gone (k ∷ ks) f =
    let rest = select-IsFree a gone ks f.1 in
    elim (Bool-cases (same k.source a)) [
      | inl e ↦ rw e rest
      | inr e ↦ rw e (ground (arith, f.0, same_sym k.source a), rest)
    ]

-- Each table of the list is safe once those before it are gone.
abbrev safe_order : List Table → List (Table × String) → Bool
safe_order gone [] = true
safe_order gone ((a, name) ∷ l) = safe a gone && safe_order (a ∷ gone) l

abbrev remove_all : List (Table × String) → Tables → Tables
remove_all [] t = t
remove_all ((a, name) ∷ l) t = remove_all l (remove_table a t)

module _ ⦃E : Env⦄ (S : IsLawfulSchema E.gorm) where
  drop_table_step :
      (a : Table) (name : String) (db : Db) (w : World)
      → E.gorm.error db ≡ none
      → refers a w.tables.foreign_keys ≡ false
      → (db' : Db) × (drop_table a name db w
          ≡ (ok db', record w { tables = remove_table a w.tables }))
        × (E.gorm.error db' ≡ none)
  unfolding drop_table
  drop_table_step a name db w clean free =
      let (e, same) = S.drop_table_done a db w.tables clean free in
      ((E.gorm.drop_table_if_exists a db w.tables).0, ground arith, e)

  drop_tables_done :
      (l : List (Table × String)) (gone : List Table) (db : Db) (w : World)
      → safe_order gone l ≡ true
      → E.gorm.error db ≡ none
      → IsFree gone w.tables.foreign_keys
      → (db' : Db) × (drop_tables l db w ≡ (ok db', record w { tables = remove_all l w.tables }))
        × (E.gorm.error db' ≡ none)
  unfolding drop_tables
  drop_tables_done [] gone db w h clean f = (db, refl, clean)
  drop_tables_done ((a, name) ∷ l) gone db w h clean f =
      let free = safe-refers a gone w.tables.foreign_keys (ground arith) f in
      let (db1, step, clean1) = drop_table_step a name db w clean free in
      let (db2, rest, clean2) =
        drop_tables_done l (a ∷ gone) db1 (record w { tables = remove_table a w.tables })
          (ground arith) clean1 (select-IsFree a gone w.tables.foreign_keys f) in
      (db2, ground arith, clean2)

pub contains-select :
    (a b : Table) (l : List Table)
    → contains b (select (λ c. not (same c a)) l) ≡ (contains b l && not (same a b))
contains-select a b [] = refl
contains-select a b (c ∷ l) = elim (Bool-cases (same c b)) [
  | inl e ↦ let equal : c ≡ b = same-eq c b e in ground (arith, contains-select a b l, same_sym a b)
  | inr e ↦ ground (arith, contains-select a b l)
]

abbrev pub tables_of : List (Table × String) → List Table
tables_of [] = []
tables_of ((a, name) ∷ l) = a ∷ tables_of l

contains-remove_all :
    (b : Table) (l : List (Table × String)) (t : Tables)
    → contains b (remove_all l t).existing
      ≡ (contains b t.existing && not (contains b (tables_of l)))
contains-remove_all b [] t = ground arith
contains-remove_all b ((a, name) ∷ l) t =
    ground (arith, contains-remove_all b l (remove_table a t), contains-select a b t.existing)

All-select :
    (P : ForeignKey → Type 0) (p : ForeignKey → Bool) (l : List ForeignKey)
    → All P l
    → All P (select p l)
All-select P p [] h = tt
All-select P p (x ∷ l) h = elim (Bool-cases (p x)) [
  | inl e ↦ rw e (h.0, All-select P p l h.1)
  | inr e ↦ rw e (All-select P p l h.1)
]

pub remove_table-IsFree :
    (a : Table) (t : Tables) → IsFree [] t.foreign_keys → IsFree [] (remove_table a t).foreign_keys
remove_table-IsFree a t f =
    All-select (λ k. (may_refer k.source k.target && not (contains k.source [])) ≡ true)
      (λ k. not (same k.source a)) t.foreign_keys f

remove_all-IsFree :
    (l : List (Table × String)) (t : Tables)
    → IsFree [] t.foreign_keys
    → IsFree [] (remove_all l t).foreign_keys
remove_all-IsFree [] t f = f
remove_all-IsFree ((a, name) ∷ l) t f =
    remove_all-IsFree l (remove_table a t) (remove_table-IsFree a t f)

remove_all-OwnKeysFit :
    (l : List (Table × String)) (t : Tables) → OwnKeysFit t → OwnKeysFit (remove_all l t)
remove_all-OwnKeysFit [] t f = f
remove_all-OwnKeysFit ((a, name) ∷ l) t f =
    remove_all-OwnKeysFit l (remove_table a t) (remove_table-AllFit own_keys a t f)

module _ ⦃E : Env⦄ (S : IsLawfulSchema E.gorm) where
  -- On a lawful database, a handle without an error and no foreign keys but those that the program
  -- sets up, `Reset` of the handler succeeds, since no table is dropped while another refers to
  -- it; afterwards exactly the tables that it names are gone, the handle has no error, and the
  -- foreign keys are still of the same kind and fit as before.
  pub reset_done :
      (db : Db) (w : World)
      → E.gorm.error db ≡ none
      → IsFree [] w.tables.foreign_keys
      → OwnKeysFit w.tables
      → (db' : Db) × (w' : World) × (reset db w ≡ (ok db', w'))
        × (E.gorm.error db' ≡ none)
        × ((a : Table)
            → contains a w'.tables.existing
              ≡ (contains a w.tables.existing && not (contains a (tables_of reset_tables))))
        × IsFree [] w'.tables.foreign_keys
        × OwnKeysFit w'.tables
  unfolding reset
  reset_done db w clean f fit =
      let (db', done, clean') = drop_tables_done S reset_tables [] db w refl clean f in
      (
        db',
        record w { tables = remove_all reset_tables w.tables },
        done,
        clean',
        λ a. contains-remove_all a reset_tables w.tables,
        remove_all-IsFree reset_tables w.tables f,
        remove_all-OwnKeysFit reset_tables w.tables fit,
      )
