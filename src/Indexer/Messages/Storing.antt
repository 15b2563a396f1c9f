-- ===== src/Indexer/Messages/Storing.antt =====
-- `processMsg` of x/indexer/indexer.go as a whole and the messages table.
use mathlib.Core.Path.{subst}
use dwh.Base.{ℕ, ◌≡◌, refl, ap, sym, ◌∙◌, false, List, [], ◌∷◌, ◌++◌, arith, ⊤, if◌then◌else◌}
use dwh.Common.Rows.{Message, new_message}
use dwh.Database.Tables.{stamped}
use dwh.Database.Gorm.{IsLawful, IsSticky}
use dwh.Env.Action.{Outcome, ok}
use dwh.Env.Calls.{Env}
use dwh.Marketplace.Messages.{Msg, Event}
use dwh.Indexer.Cursor.{int_lt}
use dwh.Indexer.State.{Node, Indexer}
use dwh.Indexer.Messages.{Verdict, attempt, message_row, store_message, deferred, process_msg}
use dwh.Indexer.Messages.Rows.{
  is_errorf, error_of, AllKeepLog, Clean, Adds, attempt-frame, attempt-verdict, store_message_done,
}

module _ ⦃E : Env⦄ ⦃N : Node⦄ where
  -- The row of a message that `processMsg` returned from with this outcome.
  abbrev pub row_of : ℕ → Msg → Outcome ⊤ → Message
  row_of tx_id msg r =
      new_message E.sdk msg.route msg.kind msg.sign_bytes msg.signers (is_errorf r) (error_of r)
        tx_id

  message_row-verdict :
      (tx_id : ℕ) (msg : Msg) (v : Verdict)
      → v.failed ≡ is_errorf v.result
      → v.err_msg ≡ error_of v.result
      → message_row tx_id msg v ≡ row_of tx_id msg v.result
  unfolding message_row
  message_row-verdict tx_id msg v h k = rw (h, k) refl

  store_message-handlers :
      (row : Message) (s : Indexer) → (store_message row s).1.handlers ≡ s.handlers
  unfolding store_message
  store_message-handlers row s = ground arith

  pub deferred-handlers :
      (tx_id : ℕ) (msg : Msg) (v : Verdict × Indexer)
      → (deferred tx_id msg v).1.handlers ≡ v.1.handlers
  unfolding deferred
  deferred-handlers tx_id msg (v, s) =
      ground (arith, store_message-handlers (message_row tx_id msg v) s)

  deferred_done :
      (L : IsLawful E.gorm) (K : IsSticky E.gorm) (tx_id : ℕ) (msg : Msg) (v : Verdict)
      (s : Indexer)
      → Clean (deferred tx_id msg (v, s)).1.db
      → ((deferred tx_id msg (v, s)).0 ≡ v.result)
        × Clean s.db
        × Adds (message_row tx_id msg v) s (deferred tx_id msg (v, s)).1
        × ((deferred tx_id msg (v, s)).1 ≡ (store_message (message_row tx_id msg v) s).1)
  unfolding deferred
  deferred_done L K tx_id msg v s clean =
      let row = message_row tx_id msg v in
      let same : (deferred tx_id msg (v, s)).1 ≡ (store_message row s).1 = ground arith in
      let (done, before, adds) =
        store_message_done L K row s (subst (λ t. Clean t.db) same clean) in
      (ground arith, before, subst (λ t. Adds row s t) (sym same) adds, same)

  -- On a lawful database whose handles keep their errors, if the handle has no error in the end
  -- and no handler writes into the messages or transactions tables itself, a message that is not
  -- skipped has added exactly one row to that table, with the transaction's key and the message's
  -- own data, marked as failed if and only if `processMsg` returned an error other than
  -- `errCursor`, with that error's text; the handle had no error before and the handlers are the
  -- same.
  pub process_msg_stores :
      (L : IsLawful E.gorm) (K : IsSticky E.gorm) (tx_id tx_index msg_id : ℕ) (msg : Msg)
      (events : List Event) (s : Indexer)
      → AllKeepLog s.handlers
      → int_lt msg_id s.cursor.msg_id ≡ false
      → Clean (process_msg tx_id tx_index msg_id msg events s).1.db
      → Adds
          (row_of tx_id msg (process_msg tx_id tx_index msg_id msg events s).0)
          s
          (process_msg tx_id tx_index msg_id msg events s).1
        × Clean s.db
        × ((process_msg tx_id tx_index msg_id msg events s).1.handlers ≡ s.handlers)
  unfolding process_msg
  process_msg_stores L K tx_id tx_index msg_id msg events s keeps is_new clean =
      let v = (attempt tx_index msg_id msg events s).0 in
      let s1 = (attempt tx_index msg_id msg events s).1 in
      let (messages, handlers, db) = attempt-frame tx_index msg_id msg events s keeps in
      let (failed, text) = attempt-verdict tx_index msg_id msg events s in
      let same : process_msg tx_id tx_index msg_id msg events s ≡ deferred tx_id msg (v, s1) =
        ap (λ b. if b then (ok tt, s) else deferred tx_id msg (v, s1)) is_new in
      let (r, before, (i, adds), store) =
        deferred_done L K tx_id msg v s1 (subst (λ t. Clean t.1.db) same clean) in
      let row : message_row tx_id msg v ≡ row_of tx_id msg (deferred tx_id msg (v, s1)).0 =
        message_row-verdict tx_id msg v failed text ∙ ap (row_of tx_id msg) (sym r) in
      let kept : (deferred tx_id msg (v, s1)).1.handlers ≡ s.handlers =
        ap (λ t. t.handlers) store
        ∙ (store_message-handlers (message_row tx_id msg v) s1 ∙ handlers) in
      let stored : Adds (row_of tx_id msg (deferred tx_id msg (v, s1)).0) s
          (deferred tx_id msg (v, s1)).1 =
        (
          i,
          subst
              (λ x.
                (deferred tx_id msg (v, s1)).1.world.tables.messages
                ≡ s.world.tables.messages ++ (record x { model = stamped i } ∷ []))
              row
              (adds
                ∙ ap (λ l. l ++ (record (message_row tx_id msg v) { model = stamped i } ∷ []))
                    messages),
        ) in
      subst (λ t. Adds (row_of tx_id msg t.0) s t.1 × Clean s.db × (t.1.handlers ≡ s.handlers))
        (sym same) (stored, subst Clean db before, kept)
