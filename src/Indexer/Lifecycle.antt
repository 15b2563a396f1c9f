-- ===== src/Indexer/Lifecycle.antt =====
-- `NewIndexer`, `WithHandler`, `Setup`, `setupIndexerTables` and `Stop` of x/indexer/indexer.go.
pub mod Failing
pub mod Preparing
pub mod Succeeding
pub mod Keeping
use Prim.Native.String.{String}
use dwh.Base.{Bool, true, false, none, some, List, [], ◌∷◌, ⊤, ◌<>◌, if◌then◌else◌}
use dwh.Database.Tables.{Table, txes, messages}
use dwh.Env.Action.{Action, World, Outcome, ok, err, panic, errorf, error_text}
use dwh.Env.Calls.{Env, Db, db_error, Reply, reply, failure}
use dwh.Marketplace.Schema.{has_table, create_table, drop_table_if_exists, add_foreign_key, key}
use dwh.Indexer.Cursor.{zero_cursor, unmarshal}
use dwh.Indexer.State.{
  MsgHandler, Node, Indexer, Run, skip, ◌>>◌, ◌>>=◌, call, call_on, set_db, update_cursor,
  set_handler,
}
use dwh.Indexer.Messages.{as_err_cursor}

module _ ⦃E : Env⦄ ⦃N : Node⦄ where
  abbrev pub set_handlers :
      List String → MsgHandler → List (String × MsgHandler) → List (String × MsgHandler)
  set_handlers [] h l = l
  set_handlers (route ∷ routes) h l = set_handlers routes h (set_handler route h l)

  unfoldable pub with_handler : MsgHandler → Indexer → Indexer
  with_handler h s = record s { handlers = set_handlers h.router_keys h s.handlers }

  unfoldable pub with_handlers : List MsgHandler → Indexer → Indexer
  unfolding with_handler
  with_handlers [] s = s
  with_handlers (h ∷ hs) s = with_handlers hs (with_handler h s)

  -- From the lookup of the cursor on.
  unfoldable pub restore_cursor : Indexer → Outcome ⊤ × Indexer
  unfolding unmarshal update_cursor
  restore_cursor s = elim (N.has s.store) [
    | failure e ↦ (err (errorf ("failed to check for indexer cursor: " <> e)), s)
    | reply false ↦ let (r, s') = update_cursor 1 0 0 s in (as_err_cursor r, s')
    | reply true ↦ elim (N.get s.store) [
      | failure e ↦ (err (errorf ("failed to retrieve indexer cursor: " <> e)), s)
      | reply bz ↦ elim (unmarshal bz s.cursor) [
        | failure e ↦ (err (errorf ("failed to unmarshal indexer cursor: " <> e)), s)
        | reply c ↦ (ok tt, record s { cursor = c })
      ]
    ]
  ]

  -- `NewIndexer`, with the outcome of opening the state database.
  unfoldable pub new_indexer : Reply N.Store → Db → List MsgHandler → World → Outcome Indexer
  unfolding with_handlers restore_cursor
  new_indexer (failure e) db hs w = err (errorf ("failed to open state database: " <> e))
  new_indexer (reply store) db hs w =
      let s : Indexer = record {
        db = some db;
        store = store;
        handlers = [];
        cursor = zero_cursor;
        cancelled = false;
        closed = false;
        world = w;
      } in
      let (r, s') = restore_cursor (with_handlers hs s) in
      elim r [ ok _ ↦ ok s' | err e ↦ err e | panic ↦ panic ]

  -- `m.db = …; if m.db.Error != nil { return fmt.Errorf("…: %v", m.db.Error) }`
  abbrev pub assign : (Db → Action Db) → String → Run ⊤
  assign f text s =
      let (r, s') = call f s in
      elim r [
        | err e ↦ (err e, s')
        | panic ↦ (panic, s')
        | ok db ↦ elim (db_error db) [
          | none ↦ (ok tt, set_db (some db) s')
          | some e ↦ (err (errorf (text <> e)), set_db (some db) s')
        ]
      ]

  -- `if !m.db.HasTable(…) { m.db = m.db.CreateTable(…) … }`
  abbrev pub ensure : Table → String → Run ⊤
  ensure a text s =
      let (r, s') = call (has_table a) s in
      let created = assign (create_table a) text s' in
      elim r [
        | ok there ↦ if there then (ok tt, s') else created
        | err e ↦ (err e, s')
        | panic ↦ (panic, s')
      ]

  unfoldable pub drop_own_tables : Bool → Run ⊤
  drop_own_tables true = do
    assign (drop_table_if_exists messages) "failed to drop table messages: "
    assign (drop_table_if_exists txes) "failed to drop table txes: "
  drop_own_tables false = skip

  unfoldable pub setup_indexer_tables : Bool → Run ⊤
  unfolding drop_own_tables
  setup_indexer_tables reset = do
    drop_own_tables reset
    ensure txes "failed to create table txes: "
    ensure messages "failed to create table messages: "
    assign (add_foreign_key (key messages "tx_id" txes)) "failed to add foreign key (messages): "

  -- `m.db, err = …`: the functions of the handlers return nil with an error.
  abbrev assign_db : Outcome Db × Indexer → Outcome ⊤ × Indexer
  assign_db (ok db, s) = (ok tt, set_db (some db) s)
  assign_db (err e, s) = (err e, set_db none s)
  assign_db (panic, s) = (panic, s)

  -- `m.db, err = handler.Reset(m.db)`, where it is asked for.
  abbrev reset_module : Bool → MsgHandler → Run ⊤
  reset_module false h s = (ok tt, s)
  reset_module true h s = assign_db (call_on h.reset s)

  -- One turn of the loop of `Setup`: errors are logged, and a failed reset ends the turn.
  unfoldable pub setup_module : Bool → MsgHandler → Run ⊤
  setup_module reset h s =
      let (r, s') = reset_module reset h s in
      elim r [
        | err e ↦ (ok tt, s')
        | panic ↦ (panic, s')
        | ok _ ↦
            let (r', s'') = assign_db (call_on h.setup s') in
            elim r' [ ok _ ↦ (ok tt, s'') | err e ↦ (ok tt, s'') | panic ↦ (panic, s'') ]
      ]

  -- The loop of `Setup`, in the order in which the map is gone through.
  unfoldable pub setup_modules : Bool → List (String × MsgHandler) → Run ⊤
  unfolding setup_module
  setup_modules reset [] s = (ok tt, s)
  setup_modules reset ((route, h) ∷ l) s =
      let (r, s') = setup_module reset h s in
      let rest = setup_modules reset l s' in
      elim r [ ok _ ↦ rest | err e ↦ (err e, s') | panic ↦ (panic, s') ]

  -- `Setup`
  unfoldable pub setup : Bool → Run ⊤
  unfolding setup_indexer_tables setup_modules
  setup reset s = elim s.db [
    | none ↦ (err (errorf "can not set up indexer, db connection is not initialized"), s)
    | some db ↦
        let (r, s') = setup_indexer_tables reset s in
        let rest = setup_modules reset s.handlers s' in
        elim r [
          | err e ↦ (err (errorf ("failed to setup Indexer tables: " <> error_text e)), s')
          | panic ↦ (panic, s')
          | ok _ ↦ rest
        ]
  ]

  unfoldable pub stop_handlers : List (String × MsgHandler) → Run ⊤
  stop_handlers [] s = (ok tt, s)
  stop_handlers ((route, h) ∷ l) s =
      let (r, w) = h.stop s.world in
      let rest = stop_handlers l (record s { world = w }) in
      elim r [
        | ok _ ↦ rest
        | err e ↦ (err e, record s { world = w })
        | panic ↦ (panic, record s { world = w })
      ]

  -- `Stop`. The errors of closing the two databases are only logged.
  unfoldable pub stop : Run ⊤
  unfolding stop_handlers
  stop s = elim s.db [
    | none ↦ (panic, s)
    | some db ↦ stop_handlers s.handlers (record s {
      db = some (E.gorm.close db);
      store = N.close s.store;
      closed = true;
      cancelled = true;
    })
  ]
