-- ===== src/Indexer/Messages/Loop.antt =====
-- The loop over the messages of one transaction: which of them are processed.
use mathlib.Core.Path.{subst}
use dwh.Base.{
  ℕ, suc, ◌+◌, ◌<◌, ◌≤◌, ◌≡◌, ap, sym, ◌∙◌, true, false, List, [], ◌∷◌, ◌++◌, length, length-append,
  arith, ⊤, ltb,
}
use dwh.Database.Gorm.{IsLawful, IsSticky}
use dwh.Env.Action.{Outcome, ok, err, panic}
use dwh.Env.Calls.{Env}
use dwh.Marketplace.Messages.{Msg, Event}
use dwh.Indexer.Cursor.{int_lt, half}
use dwh.Indexer.State.{Node, Indexer, update_cursor}
use dwh.Indexer.Messages.{Verdict, conclude, attempt, deferred, process_msg, process_msgs}
use dwh.Indexer.Messages.Moves.{deferred-cursor}
use dwh.Indexer.Messages.Rows.{AllKeepLog, Clean, attempt-frame}
use dwh.Indexer.Messages.Storing.{deferred-handlers, process_msg_stores}

int_lt_small : (a b : ℕ) → a < half → b < half → int_lt a b ≡ ltb a b
int_lt_small a b h k = ground arith

module _ ⦃E : Env⦄ ⦃N : Node⦄ where
  conclude-msg_id :
      (tx_index msg_id : ℕ) (msg : Msg) (r : Outcome ⊤ × Indexer)
      → r.1.cursor.msg_id ≤ msg_id
      → (conclude tx_index msg_id msg r).1.cursor.msg_id ≤ msg_id
  unfolding conclude update_cursor
  conclude-msg_id tx_index msg_id msg (ok _, s) h = ground arith
  conclude-msg_id tx_index msg_id msg (err e, s) h = h
  conclude-msg_id tx_index msg_id msg (panic, s) h = h

  attempt-msg_id :
      (tx_index msg_id : ℕ) (msg : Msg) (events : List Event) (s : Indexer)
      → s.cursor.msg_id ≤ msg_id
      → (attempt tx_index msg_id msg events s).1.cursor.msg_id ≤ msg_id
  unfolding attempt
  attempt-msg_id tx_index msg_id msg events s h = grind (arith, conclude-msg_id)

  process_msg-msg_id :
      (tx_id tx_index msg_id : ℕ) (msg : Msg) (events : List Event) (s : Indexer)
      → s.cursor.msg_id ≤ msg_id
      → (process_msg tx_id tx_index msg_id msg events s).1.cursor.msg_id ≤ msg_id
  unfolding process_msg
  process_msg-msg_id tx_id tx_index msg_id msg events s h =
      grind (arith, deferred-cursor, attempt-msg_id)

  process_msg-handlers :
      (tx_id tx_index msg_id : ℕ) (msg : Msg) (events : List Event) (s : Indexer)
      → AllKeepLog s.handlers
      → (process_msg tx_id tx_index msg_id msg events s).1.handlers ≡ s.handlers
  unfolding process_msg
  process_msg-handlers tx_id tx_index msg_id msg events s keeps =
      grind (arith, deferred-handlers, attempt-frame tx_index msg_id msg events s keeps)

  process_msgs_rest :
      (tx_id tx_index : ℕ) (events : List Event) (msg : Msg) (msgs : List Msg) (i : ℕ) (s : Indexer)
      → (process_msgs tx_id tx_index events (msg ∷ msgs) i s).0 ≡ ok tt
      → process_msgs tx_id tx_index events (msg ∷ msgs) i s
        ≡ process_msgs tx_id tx_index events msgs
            (suc i)
            (process_msg tx_id tx_index i msg events s).1
  unfolding process_msgs
  process_msgs_rest tx_id tx_index events msg msgs i s h = ground arith

  -- On a lawful database whose handles keep their errors, where the cursor is not past the first
  -- of the messages of a transaction and their indexes are below 2 ^ 63, none of them is skipped:
  -- if the loop ends without an error and the handle has no error in the end, and if no handler
  -- writes into the messages or transactions tables itself, as many rows have been added as there
  -- are messages; the handle had no error before.
  pub process_msgs_stores_each :
      (L : IsLawful E.gorm) (K : IsSticky E.gorm) (tx_id tx_index : ℕ) (events : List Event)
      (msgs : List Msg) (i : ℕ) (s : Indexer)
      → AllKeepLog s.handlers
      → s.cursor.msg_id ≤ i
      → i + length msgs < half
      → (process_msgs tx_id tx_index events msgs i s).0 ≡ ok tt
      → Clean (process_msgs tx_id tx_index events msgs i s).1.db
      → (length (process_msgs tx_id tx_index events msgs i s).1.world.tables.messages
          ≡ length s.world.tables.messages + length msgs)
        × Clean s.db
  unfolding process_msgs
  process_msgs_stores_each L K tx_id tx_index events [] i s keeps h small done clean =
      (omega arith, clean)
  process_msgs_stores_each L K tx_id tx_index events (msg ∷ msgs) i s keeps h small done clean =
      let s1 = (process_msg tx_id tx_index i msg events s).1 in
      let same = process_msgs_rest tx_id tx_index events msg msgs i s done in
      let at = process_msg-msg_id tx_id tx_index i msg events s h in
      let is_new : int_lt i s.cursor.msg_id ≡ false =
        ground (arith, int_lt_small i s.cursor.msg_id) in
      let kept = process_msg-handlers tx_id tx_index i msg events s keeps in
      let (count, clean1) =
        process_msgs_stores_each L K tx_id tx_index events msgs (suc i) s1
          (subst AllKeepLog (sym kept) keeps) (omega arith) (omega arith)
          (ap (λ r. r.0) (sym same) ∙ done) (subst (λ r. Clean r.1.db) same clean) in
      let ((stamp, added), before, _) =
        process_msg_stores L K tx_id tx_index i msg events s keeps is_new clean1 in
      let one : length s1.world.tables.messages ≡ length s.world.tables.messages + 1 =
        ap length added ∙ length-append s.world.tables.messages _ in
      let all = ap (λ r. length r.1.world.tables.messages) same in
      (all ∙ omega (arith, count, one), before)

  skipped_prefix :
      (tx_id tx_index : ℕ) (events : List Event) (skipped rest : List Msg) (i j : ℕ) (s : Indexer)
      → i + length skipped ≡ j
      → j ≤ s.cursor.msg_id
      → s.cursor.msg_id < half
      → process_msgs tx_id tx_index events (skipped ++ rest) i s
        ≡ process_msgs tx_id tx_index events rest j s
  unfolding process_msgs process_msg
  skipped_prefix tx_id tx_index events [] rest i j s e h small =
      let same : i ≡ j = omega (arith, e) in
      ap (λ k. process_msgs tx_id tx_index events rest k s) same
  skipped_prefix tx_id tx_index events (msg ∷ msgs) rest i j s e h small =
      let old : int_lt i s.cursor.msg_id ≡ true = ground (arith, int_lt_small i s.cursor.msg_id) in
      let later =
        skipped_prefix tx_id tx_index events msgs rest (suc i) j s (omega arith) h small in
      ground (arith, old, later)

  conclude-moves :
      (tx_index msg_id : ℕ) (msg : Msg) (r : Outcome ⊤ × Indexer)
      → (conclude tx_index msg_id msg r).0.result ≡ ok tt
      → (conclude tx_index msg_id msg r).1.cursor.msg_id ≡ msg_id
  unfolding conclude update_cursor
  conclude-moves tx_index msg_id msg (ok _, s) h = ground arith
  conclude-moves tx_index msg_id msg (err e, s) h = cc
  conclude-moves tx_index msg_id msg (panic, s) h = cc

  attempt-moves :
      (tx_index msg_id : ℕ) (msg : Msg) (events : List Event) (s : Indexer)
      → (attempt tx_index msg_id msg events s).0.result ≡ ok tt
      → (attempt tx_index msg_id msg events s).1.cursor.msg_id ≡ msg_id
  unfolding attempt
  attempt-moves tx_index msg_id msg events s h = grind (arith, conclude-moves)

  deferred-result :
      (tx_id : ℕ) (msg : Msg) (v : Verdict × Indexer)
      → (deferred tx_id msg v).0 ≡ ok tt
      → v.0.result ≡ ok tt
  unfolding deferred
  deferred-result tx_id msg (v, s) h = ground arith

  -- A message that is processed without an error leaves the cursor at its own index.
  process_msg-moves :
      (tx_id tx_index msg_id : ℕ) (msg : Msg) (events : List Event) (s : Indexer)
      → int_lt msg_id s.cursor.msg_id ≡ false
      → (process_msg tx_id tx_index msg_id msg events s).0 ≡ ok tt
      → (process_msg tx_id tx_index msg_id msg events s).1.cursor.msg_id ≡ msg_id
  unfolding process_msg
  process_msg-moves tx_id tx_index msg_id msg events s is_new done =
      let v = attempt tx_index msg_id msg events s in
      ground (
        arith,
        is_new,
        deferred-result tx_id msg v,
        deferred-cursor tx_id msg v,
        attempt-moves tx_index msg_id msg events s,
      )

  -- On a lawful database whose handles keep their errors, where a message of a transaction is
  -- processed without an error, at an index that the cursor is not past, and no handler writes
  -- into the messages or transactions tables itself, then in the next transaction as many messages
  -- from the first on as that index says are skipped: if its loop ends without an error and the
  -- handle has no error in the end, as many rows have been added as there are messages after
  -- those. The indexes are below 2 ^ 63.
  pub process_msgs_skips :
      (L : IsLawful E.gorm) (K : IsSticky E.gorm) (tx_id tx_index next_id next_index : ℕ)
      (events next_events : List Event) (last : Msg) (skipped rest : List Msg) (s : Indexer)
      → let i = length skipped in
        let s1 = (process_msg tx_id tx_index i last events s).1 in
        let r = process_msgs next_id next_index next_events (skipped ++ rest) 0 s1 in
        AllKeepLog s.handlers
        → s.cursor.msg_id ≤ i
        → i + length rest < half
        → (process_msg tx_id tx_index i last events s).0 ≡ ok tt
        → r.0 ≡ ok tt
        → Clean r.1.db
        → length r.1.world.tables.messages ≡ length s1.world.tables.messages + length rest
  process_msgs_skips L K tx_id tx_index next_id next_index events next_events last skipped rest s
        keeps h small first done clean =
      let i = length skipped in
      let s1 = (process_msg tx_id tx_index i last events s).1 in
      let is_new : int_lt i s.cursor.msg_id ≡ false =
        ground (arith, int_lt_small i s.cursor.msg_id) in
      let at = process_msg-moves tx_id tx_index i last events s is_new first in
      let kept = process_msg-handlers tx_id tx_index i last events s keeps in
      let same =
        skipped_prefix next_id next_index next_events skipped rest 0 i s1 (omega arith)
          (omega (arith, at)) (omega (arith, at)) in
      let (count, _) =
        process_msgs_stores_each L K next_id next_index next_events rest i s1
          (subst AllKeepLog (sym kept) keeps) (omega (arith, at)) small
          (ap (λ r. r.0) (sym same) ∙ done) (subst (λ r. Clean r.1.db) same clean) in
      ap (λ r. length r.1.world.tables.messages) same ∙ count
