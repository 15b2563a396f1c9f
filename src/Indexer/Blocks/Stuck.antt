-- ===== src/Indexer/Blocks/Stuck.antt =====
-- `processTxs` on a handle that has an error, or whose database is closed.
use Prim.Native.String.{String}
use mathlib.Core.Path.{subst}
use dwh.Base.{◌≡◌, refl, sym, Option, none, some, List, [], ◌∷◌, arith, inl, inr}
use dwh.Common.Rows.{Tx, new_tx}
use dwh.Database.Tables.{Tables}
use dwh.Database.Gorm.{IsSticky}
use dwh.Env.Action.{ok}
use dwh.Env.Calls.{Env, Db, Reply-cases}
use dwh.Indexer.Cursor.{next, marshal}
use dwh.Indexer.State.{Node, TxBytes, Indexer, update_cursor}
use dwh.Indexer.Blocks.{create_tx, process_tx, process_all, process_txs}

module _ ⦃E : Env⦄ where
  -- A handle that is there and has an error.
  abbrev pub Broken : Option Db → Type 0
  Broken o = (db : Db) × (e : String) × (o ≡ some db) × (E.gorm.error db ≡ some e)

  -- A handle that is there, and on which no transaction can be stored.
  abbrev pub Refuses : Option Db → Type 0
  Refuses o =
      (db : Db) × (o ≡ some db)
      × ((x : Tx) (t : Tables)
          → (e : String) × (E.gorm.error (E.gorm.create_tx x db t).0 ≡ some e)
            × ((E.gorm.create_tx x db t).2 ≡ t))

  sticky-Refuses :
      (K : IsSticky E.gorm) (db : Db) (e : String) → E.gorm.error db ≡ some e → Refuses (some db)
  sticky-Refuses K db e broken = (
    db,
    refl,
    λ x t. let (failed, same) = K.create_tx_sticky x db t e broken in (e, failed, same),
  )

  Broken-Refuses : (K : IsSticky E.gorm) (o : Option Db) → Broken o → Refuses o
  Broken-Refuses K o (db, e, there, broken) =
      subst Refuses (sym there) (sticky-Refuses K db e broken)

module _ ⦃E : Env⦄ ⦃N : Node⦄ where
  process_tx_refused :
      (K : IsSticky E.gorm) (bytes : TxBytes) (s : Indexer)
      → Refuses s.db
      → ((process_tx bytes s).0 ≡ ok tt)
        × Refuses (process_tx bytes s).1.db
        × ((process_tx bytes s).1.world.tables ≡ s.world.tables)
        × ((process_tx bytes s).1.cursor ≡ s.cursor)
        × ((process_tx bytes s).1.store ≡ s.store)
  unfolding process_tx create_tx
  process_tx_refused K bytes s (db, there, refuses) = elim (Reply-cases (N.tx bytes)) [
    | inl (x, h) ↦ rw (h, process_tx) (refl, (db, there, refuses), refl, refl, refl)
    | inr (res, h) ↦
        let (e, failed, same) = refuses (new_tx res) s.world.tables in
        let db' = (E.gorm.create_tx (new_tx res) db s.world.tables).0 in
        let left : (process_tx bytes s).1.db ≡ some db' = ground arith in
        (
          ground arith,
          subst Refuses (sym left) (sticky-Refuses K db' e failed),
          ground arith,
          ground arith,
          ground arith,
        )
  ]

  pub process_all_refused :
      (K : IsSticky E.gorm) (txs : List TxBytes) (s : Indexer)
      → Refuses s.db
      → ((process_all txs s).0 ≡ ok tt)
        × ((process_all txs s).1.world.tables ≡ s.world.tables)
        × ((process_all txs s).1.cursor ≡ s.cursor)
        × ((process_all txs s).1.store ≡ s.store)
  unfolding process_all
  process_all_refused K [] s refuses = (refl, refl, refl, refl)
  process_all_refused K (bytes ∷ txs) s refuses =
      let (done, refuses1, tables, cursor, store) = process_tx_refused K bytes s refuses in
      ground (arith, process_all_refused K txs (process_tx bytes s).1 refuses1)

  -- On a database whose handles keep their errors, once the indexer's handle has an error, a block
  -- is passed over: the tables stay as they are, and still `processTxs` reports no error and the
  -- cursor moves on to the next block, if it can be written.
  pub stuck_handle_passes_over :
      (K : IsSticky E.gorm) (txs : List TxBytes) (s : Indexer)
      → Broken s.db
      → (N.put (marshal (next s.cursor)) s.store).0 ≡ none
      → ((process_txs txs s).0 ≡ ok tt)
        × ((process_txs txs s).1.world.tables ≡ s.world.tables)
        × ((process_txs txs s).1.cursor ≡ next s.cursor)
  unfolding process_txs update_cursor
  stuck_handle_passes_over K txs s broken put =
      ground (arith, process_all_refused K txs s (Broken-Refuses K s.db broken))
