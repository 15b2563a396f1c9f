-- ===== src/Indexer/Messages.antt =====
-- `processMsg` of x/indexer/indexer.go, and the loop over the messages of a transaction.
pub mod Rows
pub mod Moves
pub mod Storing
pub mod Loop
use Prim.Native.String.{String}
use dwh.Base.{ℕ, suc, Bool, true, false, none, some, List, [], ◌∷◌, ⊤, ◌<>◌, if◌then◌else◌}
use dwh.Common.Rows.{Message, new_message}
use dwh.Database.Tables.{Row}
use dwh.Env.Action.{Outcome, ok, err, panic, errorf, err_cursor, error_text}
use dwh.Env.Calls.{Env, create}
use dwh.Marketplace.Messages.{Msg, Event}
use dwh.Indexer.Cursor.{int_lt}
use dwh.Indexer.State.{Node, Indexer, Run, call, set_db, update_cursor, find_handler}

-- How the body of `processMsg` ends: what it returns, and the two variables that the deferred
-- function reads. They keep their zero values when the body panics.
pub record Verdict : Type 0 where
  pub result : Outcome ⊤
  pub failed : Bool
  pub err_msg : String

abbrev pub passed : Outcome ⊤ → Verdict
passed r = record { result = r; failed = false; err_msg = "" }

-- `failed, errMsg = true, …; return errors.New(errMsg)`
abbrev pub refused : String → Verdict
refused text = record { result = err (errorf text); failed = true; err_msg = text }

-- `if err := m.updateCursor(…); err != nil { return errCursor }`
abbrev pub as_err_cursor : Outcome ⊤ → Outcome ⊤
as_err_cursor (ok a) = ok a
as_err_cursor (err e) = err err_cursor
as_err_cursor panic = panic

module _ ⦃E : Env⦄ ⦃N : Node⦄ where
  -- What follows the handler's call.
  unfoldable pub conclude : ℕ → ℕ → Msg → Outcome ⊤ × Indexer → Verdict × Indexer
  unfolding update_cursor
  conclude tx_index msg_id msg (ok _, s) =
      let (r, s') = update_cursor s.cursor.height tx_index msg_id s in
      (passed (as_err_cursor r), s')
  conclude tx_index msg_id msg (err e, s) =
      (refused ("failed to process message " <> (N.show_msg msg <> (": " <> error_text e))), s)
  conclude tx_index msg_id msg (panic, s) = (passed panic, s)

  -- From the lookup of the handler on.
  unfoldable pub attempt : ℕ → ℕ → Msg → List Event → Indexer → Verdict × Indexer
  unfolding conclude
  attempt tx_index msg_id msg events s = elim (find_handler msg.route s.handlers) [
    | none ↦ (
      refused
          ("unknown message route " <> (msg.route <> (" (type " <> (msg.kind <> "), skipping")))),
      s,
    )
    | some h ↦ conclude tx_index msg_id msg (call (h.handle msg events) s)
  ]

  unfoldable pub message_row : ℕ → Msg → Verdict → Message
  unfolding new_message
  message_row tx_id msg v =
      new_message E.sdk msg.route msg.kind msg.sign_bytes msg.signers v.failed v.err_msg tx_id

  -- The deferred function. It only logs an error of the insertion, which the handle keeps.
  unfoldable pub store_message : Message → Run ⊤
  store_message row s =
      let (r, s') = call (create (Row.message row)) s in
      elim r [ ok db ↦ (ok tt, set_db (some db) s') | err e ↦ (err e, s') | panic ↦ (panic, s') ]

  -- The function returns what its body does, unless the deferred function panics.
  unfoldable pub deferred : ℕ → Msg → Verdict × Indexer → Outcome ⊤ × Indexer
  unfolding message_row store_message
  deferred tx_id msg (v, s) =
      let (r, s') = store_message (message_row tx_id msg v) s in
      elim r [ ok _ ↦ (v.result, s') | err e ↦ (err e, s') | panic ↦ (panic, s') ]

  unfoldable pub process_msg : ℕ → ℕ → ℕ → Msg → List Event → Run ⊤
  unfolding attempt deferred
  process_msg tx_id tx_index msg_id msg events s =
      if int_lt msg_id s.cursor.msg_id
      then (ok tt, s)
      else deferred tx_id msg (attempt tx_index msg_id msg events s)

  -- `for msgID, msg := range tx.GetMsgs()`, from an index on. Only `errCursor` ends the loop.
  unfoldable pub process_msgs : ℕ → ℕ → List Event → List Msg → ℕ → Run ⊤
  unfolding process_msg
  process_msgs tx_id tx_index events [] msg_id s = (ok tt, s)
  process_msgs tx_id tx_index events (msg ∷ msgs) msg_id s =
      let (r, s') = process_msg tx_id tx_index msg_id msg events s in
      let rest = process_msgs tx_id tx_index events msgs (suc msg_id) s' in
      elim r [
        | ok _ ↦ rest
        | err e ↦ elim e [ err_cursor ↦ (err err_cursor, s') | errorf _ ↦ rest ]
        | panic ↦ (panic, s')
      ]
