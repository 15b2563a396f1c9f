-- ===== src/Indexer/Blocks/Moves.antt =====
-- `processTxs`: where it leaves the cursor, and how it ends.
use Prim.Native.String.{String}
use dwh.Base.{◌≡◌, ◌≢◌, refl, true, List, [], ◌∷◌, arith}
use dwh.Common.Rows.{Tx, ResultTx}
use dwh.Env.Action.{ok, err, GoError, errorf, err_cursor}
use dwh.Env.Calls.{Env, reply}
use dwh.Marketplace.Messages.{Event}
use dwh.Indexer.Cursor.{next, marshal}
use dwh.Indexer.State.{IsStore, Node, TxBytes, Indexer, update_cursor}
use dwh.Indexer.Messages.Moves.{process_msgs-height, process_msgs-err}
use dwh.Indexer.Blocks.{create_tx, process_stored, process_tx, process_all, process_txs}

module _ ⦃E : Env⦄ ⦃N : Node⦄ where
  process_stored-height :
      (bytes : TxBytes) (res : ResultTx Event) (x : Tx) (s : Indexer)
      → (process_stored bytes res x s).1.cursor.height ≡ s.cursor.height
  unfolding process_stored
  process_stored-height bytes res x s = grind (arith, process_msgs-height)

  process_tx-height :
      (bytes : TxBytes) (s : Indexer) → (process_tx bytes s).1.cursor.height ≡ s.cursor.height
  unfolding process_tx create_tx
  process_tx-height bytes s = grind (arith, process_stored-height)

  pub process_all-height :
      (txs : List TxBytes) (s : Indexer) → (process_all txs s).1.cursor.height ≡ s.cursor.height
  unfolding process_all
  process_all-height [] s = refl
  process_all-height (bytes ∷ txs) s =
      ground (arith, process_tx-height bytes s, process_all-height txs (process_tx bytes s).1)

  process_stored-err :
      (bytes : TxBytes) (res : ResultTx Event) (x : Tx) (s : Indexer) (e : GoError)
      → (process_stored bytes res x s).0 ≡ err e
      → e ≡ err_cursor
  unfolding process_stored
  process_stored-err bytes res x s e h = grind (arith, process_msgs-err)

  process_tx-err :
      (bytes : TxBytes) (s : Indexer) (e : GoError)
      → (process_tx bytes s).0 ≡ err e
      → e ≡ err_cursor
  unfolding process_tx create_tx
  process_tx-err bytes s e h = grind (arith, process_msgs-err)

  process_all-err :
      (txs : List TxBytes) (s : Indexer) (e : GoError)
      → (process_all txs s).0 ≡ err e
      → e ≡ err_cursor
  unfolding process_all
  process_all-err [] s e h = cc
  process_all-err (bytes ∷ txs) s e h =
      ground (arith, process_tx-err bytes s e, process_all-err txs (process_tx bytes s).1 e)

  -- Whatever fails in a block, `processTxs` returns no error but `errCursor`.
  pub process_txs_errors :
      (txs : List TxBytes) (s : Indexer) (text : String) → (process_txs txs s).0 ≢ err (errorf text)
  unfolding process_txs update_cursor
  process_txs_errors txs s text h = ground (arith, process_all-err txs s (errorf text))

  -- With a state database that keeps what is put there, after a block that `processTxs` returned
  -- from without an error, the cursor is at the start of the next block and the state database
  -- holds that cursor.
  pub process_txs_advances :
      (L : IsStore N) (txs : List TxBytes) (s : Indexer)
      → (process_txs txs s).0 ≡ ok tt
      → ((process_txs txs s).1.cursor ≡ next s.cursor)
        × (N.has (process_txs txs s).1.store ≡ reply true)
        × (N.get (process_txs txs s).1.store ≡ reply (marshal (next s.cursor)))
  unfolding process_txs update_cursor
  process_txs_advances L txs s h = grind (arith, process_all-height txs s, L.has_put, L.get_put)
