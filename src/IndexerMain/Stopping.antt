-- ===== src/IndexerMain/Stopping.antt =====
-- How cmd/indexer/main.go ends on a signal.
use Prim.Native.String.{String}
use mathlib.Core.Path.{subst}
use dwh.Base.{
  sym, ⊤, true, if◌then◌else◌, ◌≡◌, refl, ◌⊎◌, none, some, List, [], ◌∷◌, arith, inl, inr, Option,
  Option-cases, ◌<>◌,
}
use dwh.Database.Gorm.{IsSticky, IsClosing}
use dwh.Env.Action.{Outcome, ok, err, errorf, err_cursor, error_text}
use dwh.Env.Calls.{Env, Db, Reply-cases}
use dwh.Indexer.Cursor.{next, marshal}
use dwh.Indexer.State.{MsgHandler, Node, Indexer, IsClosingStore, update_cursor}
use dwh.Indexer.Blocks.{Ask, running, start, process_txs}
use dwh.Indexer.Blocks.Stuck.{Refuses, process_all_refused}
use dwh.Indexer.Lifecycle.{stop_handlers, stop}
use dwh.IndexerMain.{Signal, finish, interrupted, run_group}

abbrev pub cursor_lost : String
cursor_lost = "failed to processTxs: " <> error_text err_cursor

module _ ⦃E : Env⦄ ⦃N : Node⦄ where
  stop_handlers_keep :
      (l : List (String × MsgHandler)) (s : Indexer)
      → ((stop_handlers l s).1.db ≡ s.db)
        × ((stop_handlers l s).1.cursor ≡ s.cursor)
        × ((stop_handlers l s).1.store ≡ s.store)
  unfolding stop_handlers
  stop_handlers_keep [] s = (refl, refl, refl)
  stop_handlers_keep ((route, h) ∷ l) s =
      ground (arith, stop_handlers_keep l (record s { world = (h.stop s.world).1 }))

  stop_done :
      (s : Indexer)
      → (stop s).0 ≡ ok tt
      → (db : Db) × ((stop s).1.db ≡ some (E.gorm.close db))
        × ((stop s).1.cursor ≡ s.cursor)
        × ((stop s).1.store ≡ N.close s.store)
  unfolding stop
  stop_done s h = elim (Option-cases s.db) [
    | inl nil ↦ absurd (ground (arith, nil, h))
    | inr (db, there) ↦
        let s' : Indexer = record s {
          db = some (E.gorm.close db);
          store = N.close s.store;
          closed = true;
          cancelled = true;
        } in
        let (handle, cursor, store) = stop_handlers_keep s.handlers s' in
        (
          db,
          ground (arith, there, handle),
          ground (arith, there, cursor),
          ground (arith, there, store),
        )
  ]

  closed-Refuses : (C : IsClosing E.gorm) (db : Db) → Refuses (some (E.gorm.close db))
  closed-Refuses C db = (E.gorm.close db, refl, λ x t. C.create_tx_closed x db t)

  -- What is left of a run of `Start` after `Stop`: nothing is stored any more, and the cursor in
  -- memory has not moved, or has moved on by a block and `Start` has returned an error.
  abbrev pub Ends : Indexer → Outcome ⊤ × Indexer → Type 0
  Ends s (r, s') =
      (s'.world.tables ≡ s.world.tables)
      × (s'.store ≡ s.store)
      × (((r ≡ ok tt) × (s'.cursor ≡ s.cursor))
          ⊎ ((r ≡ err (errorf cursor_lost)) × (s'.cursor ≡ next s.cursor)))

  finish-Ends :
      (K : IsSticky E.gorm) (C : IsClosing E.gorm) (D : IsClosingStore N) (in_flight : Option Ask)
      (s : Indexer) (db : Db) (store : N.Store)
      → s.db ≡ some (E.gorm.close db)
      → s.store ≡ N.close store
      → Ends s (finish in_flight s)
  unfolding finish process_txs update_cursor
  finish-Ends K C D none s db store there closed = (refl, refl, inl (refl, refl))
  finish-Ends K C D (some ask) s db store there closed = elim (Reply-cases (ask s.cursor.height)) [
    | inl (e, h) ↦ rw (h, finish) (refl, refl, inl (refl, refl))
    | inr (txs, h) ↦
        let refuses = subst Refuses (sym there) (closed-Refuses C db) in
        let (done, tables, cursor, kept) = process_all_refused K txs s refuses in
        let (e, full) = D.put_closed (marshal (next s.cursor)) store in
        (
          ground (arith, h, done, tables, cursor, kept, closed, full),
          ground (arith, h, done, tables, cursor, kept, closed, full),
          inr (ground (arith, h, done, tables, cursor, kept, closed, full)),
        )
  ]

  -- When a signal comes while `Start` is running, which may be in a request to the node, and
  -- `Stop` returns, then the process ends with the signal's text or with the loss of the cursor,
  -- and nothing is stored any more: the state database is the one that `Start` left, closed, and
  -- the tables are as `Stop` left them; the cursor in memory is where it was, or one block
  -- further. The databases are such that handles keep their errors and nothing can be stored once
  -- they are closed.
  pub signal_stops :
      (K : IsSticky E.gorm) (C : IsClosing E.gorm) (D : IsClosingStore N) (asks : List Ask)
      (signal : Signal) (s : Indexer)
      → let t = (start asks s).1 in
        let out = run_group asks (some signal) s in
        (start asks s).0 ≡ running
        → (stop t).0 ≡ ok tt
        → (text : String) × (out.0 ≡ err (errorf ("indexer stopped: " <> text)))
          × ((text ≡ signal.text) ⊎ (text ≡ cursor_lost))
          × (out.1.store ≡ N.close t.store)
          × (out.1.world.tables ≡ (stop t).1.world.tables)
          × ((out.1.cursor ≡ t.cursor) ⊎ (out.1.cursor ≡ next t.cursor))
  unfolding run_group interrupted
  signal_stops K C D asks signal s going stopped =
      let t = (start asks s).1 in
      let (db, handle, cursor, store) = stop_done t stopped in
      let (tables, kept, ends) =
        finish-Ends K C D signal.in_flight (stop t).1 db t.store handle store in
      elim ends [
        | inl (r, c) ↦ (
          signal.text,
          ground (arith, going, stopped, r),
          inl refl,
          ground (arith, going, stopped, r, kept, store),
          ground (arith, going, stopped, r, tables),
          inl (ground (arith, going, stopped, r, c, cursor)),
        )
        | inr (r, c) ↦ (
          if signal.start_first then cursor_lost else signal.text,
          ground (arith, going, stopped, r),
          ground arith,
          ground (arith, going, stopped, r, kept, store),
          ground (arith, going, stopped, r, tables),
          inr (ground (arith, going, stopped, r, c, cursor)),
        )
      ]
