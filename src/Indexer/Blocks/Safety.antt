-- ===== src/Indexer/Blocks/Safety.antt =====
-- Nil pointers under `processTxs` of x/indexer/indexer.go.
use Prim.Native.String.{String}
use dwh.Base.{
  ℕ, suc, ◌≡◌, ◌≢◌, refl, sym, none, some, List, [], ◌∷◌, arith, ⊤, All, inl, inr, Option-cases,
}
use mathlib.Core.Path.{subst}
use dwh.Common.Rows.{Message, Tx, ResultTx, new_tx}
use dwh.Env.Action.{World, Outcome, ok, err, panic}
use dwh.Env.Calls.{Env, Db, reply, Reply-cases}
use dwh.Marketplace.Messages.{Msg, Event}
use dwh.Indexer.State.{MsgHandler, Node, TxBytes, Indexer, find_handler, update_cursor}
use dwh.Indexer.Messages.{
  Verdict, conclude, attempt, message_row, store_message, deferred, process_msg, process_msgs,
}
use dwh.Indexer.Messages.Rows.{conclude-frame}
use dwh.Indexer.Blocks.{create_tx, process_stored, process_tx, process_all, process_txs}

module _ ⦃E : Env⦄ ⦃N : Node⦄ where
  -- The handler of the message's route does not panic on it.
  abbrev pub IsSafe : List (String × MsgHandler) → Msg → Type 0
  IsSafe l msg =
      (h : MsgHandler)
      → find_handler msg.route l ≡ some h
      → (events : List Event) (db : Db) (w : World) → (h.handle msg events db w).0 ≢ panic

  -- So it is for all messages of the transactions that can be decoded.
  abbrev pub AllSafe : List (String × MsgHandler) → Type 0
  AllSafe l =
      (bytes : TxBytes) (msgs : List Msg) → N.tx_decoder bytes ≡ reply msgs → All (IsSafe l) msgs

  -- The outcome is no panic, the handle is there, and the handlers are these.
  pub record Sound (l : List (String × MsgHandler)) (r : Outcome ⊤ × Indexer) : Type 0 where
    pub no_panic : r.0 ≢ panic
    pub present : r.1.db ≢ none
    pub kept : r.1.handlers ≡ l

  conclude-ne-panic :
      (tx_index i : ℕ) (msg : Msg) (r : Outcome ⊤ × Indexer)
      → r.0 ≢ panic
      → (conclude tx_index i msg r).0.result ≢ panic
  unfolding conclude update_cursor
  conclude-ne-panic tx_index i msg (ok x, s) h = ground arith
  conclude-ne-panic tx_index i msg (err e, s) h = ground arith
  conclude-ne-panic tx_index i msg (panic, s) h = absurd (h refl)

  attempt-Sound :
      (tx_index i : ℕ) (msg : Msg) (events : List Event) (s : Indexer)
      → IsSafe s.handlers msg
      → s.db ≢ none
      → let (v, s') = attempt tx_index i msg events s in Sound s.handlers (v.result, s')
  unfolding attempt
  attempt-Sound tx_index i msg events s safe there =
      elim (Option-cases (find_handler msg.route s.handlers)) [
        | inl e ↦ record { no_panic = ground arith; present = ground arith; kept = ground arith }
        | inr (h, e) ↦ elim (Option-cases s.db) [
          | inl d ↦ absurd (there d)
          | inr (db, d) ↦
              let (r, w) = h.handle msg events db s.world in
              let s1 = record s { world = w } in
              let frame = conclude-frame tx_index i msg (r, s1) in
              let fine = conclude-ne-panic tx_index i msg (r, s1) (safe h e events db s.world) in
              record { no_panic = ground arith; present = ground arith; kept = ground arith }
        ]
      ]

  store_message-Sound :
      (row : Message) (s : Indexer) → s.db ≢ none → Sound s.handlers (store_message row s)
  unfolding store_message
  store_message-Sound row s there = elim (Option-cases s.db) [
    | inl d ↦ absurd (there d)
    | inr (db, d) ↦ record { no_panic = ground arith; present = ground arith; kept = ground arith }
  ]

  deferred-Sound :
      (tx_id : ℕ) (msg : Msg) (v : Verdict) (s : Indexer) (l : List (String × MsgHandler))
      → Sound l (v.result, s)
      → Sound l (deferred tx_id msg (v, s))
  unfolding deferred
  deferred-Sound tx_id msg v s l h =
      let stored = store_message-Sound (message_row tx_id msg v) s h.present in
      record {
        no_panic = ground (arith, stored.no_panic, h.no_panic);
        present = ground (arith, stored.present);
        kept = ground (arith, stored.kept, h.kept);
      }

  process_msg-Sound :
      (tx_id tx_index i : ℕ) (msg : Msg) (events : List Event) (s : Indexer)
      → IsSafe s.handlers msg
      → s.db ≢ none
      → Sound s.handlers (process_msg tx_id tx_index i msg events s)
  unfolding process_msg
  process_msg-Sound tx_id tx_index i msg events s safe there =
      let (v, s1) = attempt tx_index i msg events s in
      let after =
        deferred-Sound tx_id msg v s1 s.handlers
          (attempt-Sound tx_index i msg events s safe there) in
      record {
        no_panic = ground (arith, after.no_panic);
        present = ground (arith, after.present);
        kept = ground (arith, after.kept);
      }

  process_msgs-Sound :
      (tx_id tx_index : ℕ) (events : List Event) (msgs : List Msg) (i : ℕ) (s : Indexer)
      → All (IsSafe s.handlers) msgs
      → s.db ≢ none
      → Sound s.handlers (process_msgs tx_id tx_index events msgs i s)
  unfolding process_msgs
  process_msgs-Sound tx_id tx_index events [] i s safe there = record {
    no_panic = λ e. cc;
    present = there;
    kept = refl;
  }
  process_msgs-Sound tx_id tx_index events (msg ∷ msgs) i s safe there =
      let s1 = (process_msg tx_id tx_index i msg events s).1 in
      let first = process_msg-Sound tx_id tx_index i msg events s safe.0 there in
      let rest =
        process_msgs-Sound tx_id tx_index events msgs (suc i) s1
          (subst (λ l. All (IsSafe l) msgs) (sym first.kept) safe.1) first.present in
      record {
        no_panic = ground (arith, first.no_panic, rest.no_panic);
        present = ground (arith, first.present, rest.present);
        kept = ground (arith, first.kept, rest.kept);
      }

  process_stored-Sound :
      (bytes : TxBytes) (res : ResultTx Event) (x : Tx) (s : Indexer)
      → AllSafe s.handlers
      → s.db ≢ none
      → Sound s.handlers (process_stored bytes res x s)
  unfolding process_stored
  process_stored-Sound bytes res x s safe there = elim (Reply-cases (N.tx_decoder bytes)) [
    | inl (e, h) ↦ record { no_panic = ground arith; present = ground arith; kept = ground arith }
    | inr (msgs, h) ↦
        let all =
          process_msgs-Sound x.model.id x.index res.events msgs 0 s (safe bytes msgs h) there in
        record {
          no_panic = ground (arith, all.no_panic);
          present = ground (arith, all.present);
          kept = ground (arith, all.kept);
        }
  ]

  process_tx-Sound :
      (bytes : TxBytes) (s : Indexer)
      → AllSafe s.handlers
      → s.db ≢ none
      → Sound s.handlers (process_tx bytes s)
  unfolding process_tx create_tx
  process_tx-Sound bytes s safe there = elim (Option-cases s.db) [
    | inl d ↦ absurd (there d)
    | inr (db, d) ↦ elim (Reply-cases (N.tx bytes)) [
      | inl (e, h) ↦ record { no_panic = ground arith; present = ground arith; kept = ground arith }
      | inr (res, h) ↦
          let (db1, x, t) = E.gorm.create_tx (new_tx res) db s.world.tables in
          let s1 = record s { db = some db1; world = record (s.world) { tables = t } } in
          let all = process_stored-Sound bytes res x s1 safe (λ e. cc) in
          record {
            no_panic = ground (arith, all.no_panic);
            present = ground (arith, all.present);
            kept = ground (arith, all.kept);
          }
    ]
  ]

  process_all-Sound :
      (txs : List TxBytes) (s : Indexer)
      → AllSafe s.handlers
      → s.db ≢ none
      → Sound s.handlers (process_all txs s)
  unfolding process_all
  process_all-Sound [] s safe there = record { no_panic = λ e. cc; present = there; kept = refl }
  process_all-Sound (bytes ∷ txs) s safe there =
      let s1 = (process_tx bytes s).1 in
      let first = process_tx-Sound bytes s safe there in
      let rest = process_all-Sound txs s1 (subst AllSafe (sym first.kept) safe) first.present in
      record {
        no_panic = ground (arith, first.no_panic, rest.no_panic);
        present = ground (arith, first.present, rest.present);
        kept = ground (arith, first.kept, rest.kept);
      }

  -- If the handle is there, and if no handler panics on a message of a transaction that can be
  -- decoded, then `processTxs` does not panic, the handle is there afterwards, and the handlers
  -- are the same.
  pub process_txs-Sound :
      (txs : List TxBytes) (s : Indexer)
      → AllSafe s.handlers
      → s.db ≢ none
      → Sound s.handlers (process_txs txs s)
  unfolding process_txs update_cursor
  process_txs-Sound txs s safe there =
      let all = process_all-Sound txs s safe there in
      record {
        no_panic = ground (arith, all.no_panic);
        present = ground (arith, all.present);
        kept = ground (arith, all.kept);
      }
