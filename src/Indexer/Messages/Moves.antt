-- ===== src/Indexer/Messages/Moves.antt =====
-- How `processMsg` moves the cursor, and which errors leave the loop over messages.
use dwh.Base.{ℕ, suc, ◌≡◌, refl, List, [], ◌∷◌, arith, ⊤}
use dwh.Common.Rows.{Message}
use dwh.Env.Action.{Outcome, ok, err, panic, GoError, err_cursor}
use dwh.Env.Calls.{Env}
use dwh.Marketplace.Messages.{Msg, Event}
use dwh.Indexer.State.{Node, Indexer, update_cursor}
use dwh.Indexer.Messages.{
  Verdict, conclude, attempt, message_row, store_message, deferred, process_msg, process_msgs,
}

module _ ⦃E : Env⦄ ⦃N : Node⦄ where
  conclude-height :
      (tx_index msg_id : ℕ) (msg : Msg) (r : Outcome ⊤ × Indexer)
      → (conclude tx_index msg_id msg r).1.cursor.height ≡ r.1.cursor.height
  unfolding conclude update_cursor
  conclude-height tx_index msg_id msg (ok _, s) = ground arith
  conclude-height tx_index msg_id msg (err e, s) = refl
  conclude-height tx_index msg_id msg (panic, s) = refl

  attempt-height :
      (tx_index msg_id : ℕ) (msg : Msg) (events : List Event) (s : Indexer)
      → (attempt tx_index msg_id msg events s).1.cursor.height ≡ s.cursor.height
  unfolding attempt
  attempt-height tx_index msg_id msg events s = grind (arith, conclude-height)

  pub store_message-cursor :
      (row : Message) (s : Indexer) → (store_message row s).1.cursor ≡ s.cursor
  unfolding store_message
  store_message-cursor row s = ground arith

  pub deferred-cursor :
      (tx_id : ℕ) (msg : Msg) (v : Verdict × Indexer) → (deferred tx_id msg v).1.cursor ≡ v.1.cursor
  unfolding deferred
  deferred-cursor tx_id msg (v, s) =
      ground (arith, store_message-cursor (message_row tx_id msg v) s)

  pub process_msg-height :
      (tx_id tx_index msg_id : ℕ) (msg : Msg) (events : List Event) (s : Indexer)
      → (process_msg tx_id tx_index msg_id msg events s).1.cursor.height ≡ s.cursor.height
  unfolding process_msg
  process_msg-height tx_id tx_index msg_id msg events s =
      grind (arith, deferred-cursor, attempt-height)

  pub process_msgs-height :
      (tx_id tx_index : ℕ) (events : List Event) (msgs : List Msg) (msg_id : ℕ) (s : Indexer)
      → (process_msgs tx_id tx_index events msgs msg_id s).1.cursor.height ≡ s.cursor.height
  unfolding process_msgs
  process_msgs-height tx_id tx_index events [] msg_id s = refl
  process_msgs-height tx_id tx_index events (msg ∷ msgs) msg_id s =
      let s' = (process_msg tx_id tx_index msg_id msg events s).1 in
      ground (
        arith,
        process_msg-height tx_id tx_index msg_id msg events s,
        process_msgs-height tx_id tx_index events msgs (suc msg_id) s',
      )

  pub process_msgs-err :
      (tx_id tx_index : ℕ) (events : List Event) (msgs : List Msg) (msg_id : ℕ) (s : Indexer)
      (e : GoError)
      → (process_msgs tx_id tx_index events msgs msg_id s).0 ≡ err e
      → e ≡ err_cursor
  unfolding process_msgs
  process_msgs-err tx_id tx_index events [] msg_id s e h = cc
  process_msgs-err tx_id tx_index events (msg ∷ msgs) msg_id s e h =
      let s' = (process_msg tx_id tx_index msg_id msg events s).1 in
      ground (arith, process_msgs-err tx_id tx_index events msgs (suc msg_id) s' e)
