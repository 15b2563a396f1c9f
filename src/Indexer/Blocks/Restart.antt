-- ===== src/Indexer/Blocks/Restart.antt =====
-- A new indexer on the state database of an old one.
use dwh.Base.{◌<◌, ◌≡◌, refl, ap, sym, ◌∙◌, true, false, none, some, List, [], ◌∷◌, arith}
use dwh.Env.Action.{World, ok}
use dwh.Env.Calls.{Env, Db, reply}
use dwh.Indexer.Cursor.{
  next, first_cursor, Cursor, InRange, word, zero_cursor, marshal, unmarshal-marshal_cursor,
}
use dwh.Indexer.State.{MsgHandler, IsStore, Node, TxBytes, Indexer, update_cursor}
use dwh.Indexer.Blocks.{process_txs}
use dwh.Indexer.Blocks.Moves.{process_txs_advances}
use dwh.Indexer.Lifecycle.{with_handler, with_handlers, restore_cursor, new_indexer}

module _ ⦃E : Env⦄ ⦃N : Node⦄ where
  with_handlers-store :
      (hs : List MsgHandler) (s : Indexer)
      → ((with_handlers hs s).store ≡ s.store) × ((with_handlers hs s).cursor ≡ s.cursor)
  unfolding with_handlers with_handler
  with_handlers-store [] s = (refl, refl)
  with_handlers-store (h ∷ hs) s = with_handlers-store hs (with_handler h s)

  restore_cursor-stored :
      (c : Cursor) (s : Indexer)
      → InRange c
      → N.has s.store ≡ reply true
      → N.get s.store ≡ reply (marshal c)
      → restore_cursor s ≡ (ok tt, record s { cursor = c })
  unfolding restore_cursor
  restore_cursor-stored c s r h g = ground (arith, unmarshal-marshal_cursor c s.cursor r)

  new_indexer-stored :
      (c : Cursor) (store : N.Store) (db : Db) (hs : List MsgHandler) (w : World)
      → InRange c
      → N.has store ≡ reply true
      → N.get store ≡ reply (marshal c)
      → (t : Indexer) × (new_indexer (reply store) db hs w ≡ ok t)
        × (t.cursor ≡ c)
        × (t.store ≡ store)
  unfolding new_indexer
  new_indexer-stored c store db hs w r h g =
      let s : Indexer = record {
        db = some db;
        store = store;
        handlers = [];
        cursor = zero_cursor;
        cancelled = false;
        closed = false;
        world = w;
      } in
      let u = with_handlers hs s in
      let (same, _) = with_handlers-store hs s in
      (
        record u { cursor = c },
        ground (arith, restore_cursor-stored c u r (ap N.has same ∙ h) (ap N.get same ∙ g)),
        refl,
        same,
      )

  -- With a state database that keeps what is put there, after a block at a height below 2 ^ 64 is
  -- processed without an error, an indexer that is started anew on the state database, with
  -- whatever handlers, handle and database, resumes at the cursor that the old one had.
  pub restart_resumes :
      (L : IsStore N) (txs : List TxBytes) (s : Indexer) (db : Db) (hs : List MsgHandler)
      (w : World)
      → s.cursor.height < word
      → (process_txs txs s).0 ≡ ok tt
      → (t : Indexer) × (new_indexer (reply (process_txs txs s).1.store) db hs w ≡ ok t)
        × (t.cursor ≡ (process_txs txs s).1.cursor)
        × (t.store ≡ (process_txs txs s).1.store)
  restart_resumes L txs s db hs w h done =
      let (moved, there, stored) = process_txs_advances L txs s done in
      let (t, made, same, store) =
        new_indexer-stored (next s.cursor) (process_txs txs s).1.store db hs w
          (record { height = omega arith; tx_index = omega arith; msg_id = omega arith }) there
          stored in
      (t, made, same ∙ sym moved, store)

  -- On a state database that keeps what is put there, has no cursor and can be written, a new
  -- indexer starts at the first block and leaves the cursor there in the state database.
  new_indexer_fresh :
      (L : IsStore N) (store : N.Store) (db : Db) (hs : List MsgHandler) (w : World)
      → N.has store ≡ reply false
      → (N.put (marshal first_cursor) store).0 ≡ none
      → (t : Indexer) × (new_indexer (reply store) db hs w ≡ ok t)
        × (t.cursor ≡ first_cursor)
        × (N.get t.store ≡ reply (marshal first_cursor))
  unfolding new_indexer restore_cursor update_cursor
  new_indexer_fresh L store db hs w h put =
      let s : Indexer = record {
        db = some db;
        store = store;
        handlers = [];
        cursor = zero_cursor;
        cancelled = false;
        closed = false;
        world = w;
      } in
      let u = with_handlers hs s in
      let (same, _) = with_handlers-store hs s in
      (
        record u { cursor = first_cursor; store = (N.put (marshal first_cursor) store).1 },
        ground (arith, same),
        refl,
        L.get_put (marshal first_cursor) store put,
      )
