-- ===== src/Marketplace/Schema/Creating.antt =====
-- The tables and foreign keys after `Setup` of x/indexer/handlers/marketplace.go.
use Prim.Native.String.{String}
use mathlib.Core.Path.{subst}
use dwh.Base.{
  if◌then◌else◌, ◌≡◌, refl, ap, sym, ◌∙◌, none, List, [], ◌∷◌, ◌++◌, arith, Bool, true, false, ◌||◌,
  Bool-cases, inl, inr,
}
use dwh.Database.Tables.{
  Table, nfts, offers, auction_bids, fungible_tokens, fungible_token_transfers, users, ForeignKey,
  Tables,
}
use dwh.Database.Schema.{same, contains, fits, add_table, add_key as add_key_to}
use dwh.Database.Gorm.{IsLawfulSchema}
use dwh.Env.Action.{World, ok, bind_ok}
use dwh.Env.Calls.{Env, Db}
use dwh.Marketplace.Schema.{
  ensure_table, ensure_tables, add_key, add_keys, setup_tables, setup_keys, setup,
}
use dwh.Marketplace.Schema.Adding.{
  add_all, AllThere, add_key-existing, add_all-existing, add_all-IsFree, AllThere-mono,
}
use dwh.Marketplace.Schema.Fitting.{own_keys, AllFit, OwnKeysFit, add_table-AllFit, add_key-AllFit}
use dwh.Marketplace.Schema.Dropping.{IsFree, same-eq, tables_of}

pub contains-append :
    (b a : Table) (l : List Table) → contains b (l ++ (a ∷ [])) ≡ (contains b l || same a b)
contains-append b a [] = ground arith
contains-append b a (c ∷ l) = ground (arith, contains-append b a l)

-- The tables of the list, after those that were there.
abbrev add_missing : List (Table × String) → Tables → Tables
add_missing [] t = t
add_missing ((a, name) ∷ l) t = add_missing l (if contains a t.existing then t else add_table a t)

module _ ⦃E : Env⦄ (S : IsLawfulSchema E.gorm) where
  ensure_table_step :
      (a : Table) (name : String) (db : Db) (w : World)
      → E.gorm.error db ≡ none
      → (db' : Db) × (ensure_table a name db w ≡ (
        ok db',
        record w {
          tables = if contains a w.tables.existing then w.tables else add_table a w.tables;
        },
      ))
        × (E.gorm.error db' ≡ none)
  unfolding ensure_table
  ensure_table_step a name db w clean = elim (Bool-cases (contains a w.tables.existing)) [
    | inl there ↦ (db, ground (arith, S.has_table_contains a db w.tables), clean)
    | inr missing ↦
        let (e, same) = S.create_table_done a db w.tables clean missing in
        (
          (E.gorm.create_table a db w.tables).0,
          ground (arith, S.has_table_contains a db w.tables),
          e,
        )
  ]

  ensure_tables_done :
      (l : List (Table × String)) (db : Db) (w : World)
      → E.gorm.error db ≡ none
      → (db' : Db) × (ensure_tables l db w ≡ (ok db', record w { tables = add_missing l w.tables }))
        × (E.gorm.error db' ≡ none)
  unfolding ensure_tables
  ensure_tables_done [] db w clean = (db, refl, clean)
  ensure_tables_done ((a, name) ∷ l) db w clean =
      let (db1, step, clean1) = ensure_table_step a name db w clean in
      let t1 = if contains a w.tables.existing then w.tables else add_table a w.tables in
      let (db2, rest, clean2) = ensure_tables_done l db1 (record w { tables = t1 }) clean1 in
      (db2, ground arith, clean2)

  add_key_step :
      (k : ForeignKey) (name : String) (db : Db) (w : World)
      → E.gorm.error db ≡ none
      → contains k.source w.tables.existing ≡ true
      → contains k.target w.tables.existing ≡ true
      → fits k w.tables ≡ true
      → (db' : Db) × (add_key k name db w ≡ (ok db', record w { tables = add_key_to k w.tables }))
        × (E.gorm.error db' ≡ none)
  unfolding add_key
  add_key_step k name db w clean s t f =
      let (e, same) = S.add_foreign_key_done k db w.tables clean s t f in
      ((E.gorm.add_foreign_key k db w.tables).0, ground arith, e)

contains-add_missing :
    (b : Table) (l : List (Table × String)) (t : Tables)
    → contains b (add_missing l t).existing ≡ (contains b t.existing || contains b (tables_of l))
contains-add_missing b [] t = ground arith
contains-add_missing b ((a, name) ∷ l) t =
    let t1 = if contains a t.existing then t else add_table a t in
    elim (Bool-cases (same a b)) [
      | inl e ↦
          let equal : a ≡ b = same-eq a b e in
          ground (arith, contains-add_missing b l t1, contains-append b a t.existing)
      | inr e ↦ ground (arith, contains-add_missing b l t1, contains-append b a t.existing)
    ]

module _ ⦃E : Env⦄ (S : IsLawfulSchema E.gorm) where
  add_keys_done :
      (l : List (ForeignKey × String)) (db : Db) (w : World)
      → E.gorm.error db ≡ none
      → AllThere w.tables l
      → AllFit l w.tables
      → (db' : Db) × (add_keys l db w ≡ (ok db', record w { tables = add_all l w.tables }))
        × (E.gorm.error db' ≡ none)
  unfolding add_keys
  add_keys_done [] db w clean h f = (db, refl, clean)
  add_keys_done ((k, name) ∷ l) db w clean h f =
      let (db1, step, clean1) =
        add_key_step S k name db w clean (ground (arith, h.0)) (ground (arith, h.0)) f.0 in
      let w1 = record w { tables = add_key_to k w.tables } in
      let there = AllThere-mono w.tables w1.tables l (add_key-existing k w.tables) h.1 in
      let fit = add_key-AllFit l k w.tables f.1 in
      let (db2, rest, clean2) = add_keys_done l db1 w1 clean1 there fit in
      (db2, ground arith, clean2)

  setup_tables-AllThere : (t : Tables) → AllThere (add_missing setup_tables t) setup_keys
  setup_tables-AllThere t = ground (
    arith,
    contains-add_missing nfts setup_tables t,
    contains-add_missing users setup_tables t,
    contains-add_missing offers setup_tables t,
    contains-add_missing auction_bids setup_tables t,
    contains-add_missing fungible_tokens setup_tables t,
    contains-add_missing fungible_token_transfers setup_tables t,
  )

add_missing-foreign_keys :
    (l : List (Table × String)) (t : Tables) → (add_missing l t).foreign_keys ≡ t.foreign_keys
add_missing-foreign_keys [] t = refl
add_missing-foreign_keys ((a, name) ∷ l) t =
    let t1 = if contains a t.existing then t else add_table a t in
    ground (arith, add_missing-foreign_keys l t1)

abbrev set_up : Tables → Tables
set_up t = add_all setup_keys (add_missing setup_tables t)

set_up-existing :
    (t : Tables) (a : Table)
    → contains a (set_up t).existing
      ≡ (contains a t.existing || contains a (tables_of setup_tables))
set_up-existing t a =
    ap (contains a) (add_all-existing setup_keys (add_missing setup_tables t))
    ∙ contains-add_missing a setup_tables t

set_up-IsFree : (t : Tables) → IsFree [] t.foreign_keys → IsFree [] (set_up t).foreign_keys
set_up-IsFree t f =
    add_all-IsFree setup_keys (add_missing setup_tables t)
      (refl, (refl, (refl, (refl, (refl, (refl, (refl, tt)))))))
      (subst (IsFree []) (sym (add_missing-foreign_keys setup_tables t)) f)

ensured-OwnKeysFit :
    (there : Bool) (a : Table) (t : Tables)
    → OwnKeysFit t
    → OwnKeysFit (if there then t else add_table a t)
ensured-OwnKeysFit true a t f = f
ensured-OwnKeysFit false a t f = add_table-AllFit own_keys a t f

add_missing-OwnKeysFit :
    (l : List (Table × String)) (t : Tables) → OwnKeysFit t → OwnKeysFit (add_missing l t)
add_missing-OwnKeysFit [] t f = f
add_missing-OwnKeysFit ((a, name) ∷ l) t f =
    let there = contains a t.existing in
    add_missing-OwnKeysFit l (if there then t else add_table a t) (ensured-OwnKeysFit there a t f)

add_all-OwnKeysFit :
    (l : List (ForeignKey × String)) (t : Tables) → OwnKeysFit t → OwnKeysFit (add_all l t)
add_all-OwnKeysFit [] t f = f
add_all-OwnKeysFit ((k, name) ∷ l) t f =
    add_all-OwnKeysFit l (add_key_to k t) (add_key-AllFit own_keys k t f)

module _ ⦃E : Env⦄ (S : IsLawfulSchema E.gorm) where
  -- On a lawful database, a handle without an error and no foreign keys but those that the program
  -- sets up, and where a table that has rows has its keys already, `Setup` of the handler succeeds,
  -- whichever of its tables are there already; afterwards its tables are there besides those that
  -- were, the handle has no error, and the foreign keys are still of the same kind and fit as
  -- before.
  pub setup_done :
      (db : Db) (w : World)
      → E.gorm.error db ≡ none
      → IsFree [] w.tables.foreign_keys
      → OwnKeysFit w.tables
      → (db' : Db) × (w' : World) × (setup db w ≡ (ok db', w'))
        × (E.gorm.error db' ≡ none)
        × ((a : Table)
            → contains a w'.tables.existing
              ≡ (contains a w.tables.existing || contains a (tables_of setup_tables)))
        × IsFree [] w'.tables.foreign_keys
        × OwnKeysFit w'.tables
  unfolding setup
  setup_done db w clean f fit =
      let (db1, tables, clean1) = ensure_tables_done S setup_tables db w clean in
      let w1 = record w { tables = add_missing setup_tables w.tables } in
      let fit1 = add_missing-OwnKeysFit setup_tables w.tables fit in
      let (db2, keys, clean2) =
        add_keys_done S setup_keys db1 w1 clean1 (setup_tables-AllThere S w.tables) fit1.1 in
      (
        db2,
        record w { tables = set_up w.tables },
        bind_ok (ensure_tables setup_tables db) (add_keys setup_keys) w w1 db1 _ tables keys,
        clean2,
        set_up-existing w.tables,
        set_up-IsFree w.tables f,
        add_all-OwnKeysFit setup_keys (add_missing setup_tables w.tables) fit1,
      )
