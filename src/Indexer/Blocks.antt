-- ===== src/Indexer/Blocks.antt =====
-- `processTxs` and `Start` of x/indexer/indexer.go. These runs are of one goroutine: the lock of
-- `processTxs` keeps `Stop` out of it, and IndexerMain.antt has a `Stop` between the turns of `Start`.
pub mod Moves
pub mod Heights
pub mod Restart
pub mod Stuck
pub mod Safety
use dwh.Base.{ℕ, ◌+◌, ◌%◌, none, some, List, [], ◌∷◌, ⊤, ◌==◌, ltb, ◌<>◌, if◌then◌else◌}
use dwh.Common.Rows.{Tx, ResultTx, new_tx}
use dwh.Env.Action.{Outcome, ok, err, panic, errorf, error_text, Action}
use dwh.Env.Calls.{Env, Db, db_error, Reply, reply, failure}
use dwh.Marketplace.Messages.{Event}
use dwh.Indexer.Cursor.{word}
use dwh.Indexer.State.{Node, TxBytes, Indexer, Run, call, set_db, update_cursor}
use dwh.Indexer.Messages.{process_msgs, as_err_cursor}

-- What the node says when it is asked for the block at a height.
abbrev pub Ask : Type 0
Ask = ℕ → Reply (List TxBytes)

-- How far `Start` has come after some turns of its loop.
pub data Progress : Type 0 where
  running : Progress
  returned : Outcome ⊤ → Progress

module _ ⦃E : Env⦄ ⦃N : Node⦄ where
  -- `Create(dbTx).Scan(dbTx)`
  unfoldable pub create_tx : Tx → Db → Action (Db × Tx)
  create_tx x db w =
      let (db', x', t) = E.gorm.create_tx x db w.tables in (ok (db', x'), record w { tables = t })

  -- What the loop does with a transaction once its row is stored.
  unfoldable pub process_stored : TxBytes → ResultTx Event → Tx → Run ⊤
  unfolding process_msgs
  process_stored bytes res db_tx s =
      if res.code == N.code_unknown_request
      then (ok tt, s)
      else if ltb res.index s.cursor.tx_index
      then (ok tt, s)
      else elim (N.tx_decoder bytes) [
        | failure _ ↦ (ok tt, s)
        | reply msgs ↦ process_msgs db_tx.model.id db_tx.index res.events msgs 0 s
      ]

  -- One turn of the loop over the transactions.
  unfoldable pub process_tx : TxBytes → Run ⊤
  unfolding create_tx process_stored
  process_tx bytes s = elim (N.tx bytes) [
    | failure _ ↦ (ok tt, s)
    | reply res ↦
        let (r, s') = call (create_tx (new_tx res)) s in
        elim r [
          | ok (db, db_tx) ↦ elim (db_error db) [
            | some _ ↦ (ok tt, set_db (some db) s')
            | none ↦ process_stored bytes res db_tx (set_db (some db) s')
          ]
          | err e ↦ (err e, s')
          | panic ↦ (panic, s')
        ]
  ]

  unfoldable pub process_all : List TxBytes → Run ⊤
  unfolding process_tx
  process_all [] s = (ok tt, s)
  process_all (bytes ∷ txs) s =
      let (r, s') = process_tx bytes s in
      let rest = process_all txs s' in
      elim r [ ok _ ↦ rest | err e ↦ (err e, s') | panic ↦ (panic, s') ]

  unfoldable pub process_txs : List TxBytes → Run ⊤
  unfolding process_all update_cursor
  process_txs txs s =
      let (r, s') = process_all txs s in
      elim r [
        | ok _ ↦
            let (r', s'') = update_cursor ((s'.cursor.height + 1) % word) 0 0 s' in
            (as_err_cursor r', s'')
        | err e ↦ (err e, s')
        | panic ↦ (panic, s')
      ]

  -- `Start`, with what the node says in each turn. A failed request leaves the state as it is and
  -- is made again a second later, whatever its error.
  unfoldable pub start : List Ask → Indexer → Progress × Indexer
  unfolding process_txs
  start [] s = (running, s)
  start (ask ∷ asks) s =
      let again = start asks s in
      if s.cancelled then (returned (ok tt), s) else elim (ask s.cursor.height) [
        | failure _ ↦ again
        | reply txs ↦
            let (r, s') = process_txs txs s in
            let rest = start asks s' in
            elim r [
              | ok _ ↦ rest
              | err e ↦ (returned (err (errorf ("failed to processTxs: " <> error_text e))), s')
              | panic ↦ (returned panic, s')
            ]
      ]
