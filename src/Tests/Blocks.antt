-- ===== src/Tests/Blocks.antt =====
-- Runs of the indexer, whose node has transactions of two messages: one for the marketplace, and one
-- that has no handler.
use dwh.Base.{ℕ, ◌≡◌, ◌≢◌, refl, none, some, List, [], ◌∷◌, length, arith, ⊤, true, false}
use dwh.Common.Rows.{new_user}
use dwh.Database.Memory.{no_faults, memory-IsLawful, memory-IsSticky}
use dwh.Env.Action.{Outcome, ok, err, errorf}
use dwh.Env.Calls.{reply, failure, increase_counter}
use dwh.Marketplace.Lookup.{get_msg_addresses, collect_addresses}
use dwh.Marketplace.Users.{create_users, find_or_create_user, get_account, create_user, update_user}
use dwh.Marketplace.Handle.{handle, dispatch}
use dwh.Marketplace.Messages.{Msg}
use dwh.Indexer.Cursor.{
  next, first_cursor, zero_cursor, marshal, unmarshal, unmarshal-marshal_cursor,
}
use dwh.Indexer.State.{MsgHandler, Node, Indexer, update_cursor, find_handler}
use dwh.Indexer.Messages.{process_msg, process_msgs, attempt, conclude, deferred, store_message}
use dwh.Indexer.Messages.Rows.{Adds, AllKeepLog, Clean}
use dwh.Indexer.Messages.Storing.{row_of, process_msg_stores}
use dwh.Indexer.Messages.Loop.{process_msgs_stores_each, process_msgs_skips}
use dwh.Indexer.Blocks.{process_txs, process_all, process_tx, process_stored, create_tx, start, Ask}
use dwh.Indexer.Blocks.Moves.{process_txs_errors, process_txs_advances}
use dwh.Indexer.Blocks.Heights.{Follows, start-Follows}
use dwh.Indexer.Blocks.Restart.{restart_resumes}
use dwh.Indexer.Blocks.Stuck.{stuck_handle_passes_over}
use dwh.Indexer.Lifecycle.{new_indexer, with_handler}
use dwh.Indexer.Routes.{marketplace_handler, marketplace_handler-KeepsLog, with_handler_routes}
use dwh.Tests.Data.{
  is_there, read, memory_env, test_handler, test_node, test_node-IsStore, test_indexer,
  bare_indexer, put_on_auction, stranger, one_token,
}

abbrev keeps : AllKeepLog ⦃E = memory_env⦄ test_indexer.handlers
keeps = (marketplace_handler-KeepsLog ⦃E = memory_env⦄ (memory-IsLawful no_faults) test_handler, tt)

abbrev two : List Msg
two = put_on_auction ∷ put_on_auction ∷ []

-- One message of the marketplace.
abbrev one_message : Outcome ⊤ × Indexer ⦃E = memory_env⦄ ⦃N = test_node⦄
one_message = process_msg ⦃E = memory_env⦄ ⦃N = test_node⦄ 1 0 0 put_on_auction [] test_indexer

process_msg_stores_example :
    Adds ⦃E = memory_env⦄ ⦃N = test_node⦄
      (row_of ⦃E = memory_env⦄ ⦃N = test_node⦄ 1 put_on_auction (ok tt))
      test_indexer
      one_message.1
    × Clean ⦃E = memory_env⦄ (some none)
    × (one_message.1.handlers ≡ test_indexer.handlers)
unfolding process_msg attempt conclude deferred store_message marketplace_handler handle dispatch
    create_users find_or_create_user get_account create_user update_user new_user get_msg_addresses
    collect_addresses update_cursor increase_counter
process_msg_stores_example =
    process_msg_stores ⦃E = memory_env⦄ ⦃N = test_node⦄ (memory-IsLawful no_faults)
      (memory-IsSticky no_faults) 1 0 0 put_on_auction [] test_indexer keeps refl (none, refl, refl)

abbrev two_messages : Outcome ⊤ × Indexer ⦃E = memory_env⦄ ⦃N = test_node⦄
two_messages = process_msgs ⦃E = memory_env⦄ ⦃N = test_node⦄ 1 0 [] two 0 test_indexer

process_msgs_stores_each_example :
    (length two_messages.1.world.tables.messages ≡ 2) × Clean ⦃E = memory_env⦄ (some none)
unfolding process_msgs process_msg attempt conclude deferred store_message marketplace_handler
    handle dispatch create_users find_or_create_user get_account create_user update_user new_user
    get_msg_addresses collect_addresses update_cursor increase_counter
process_msgs_stores_each_example =
    process_msgs_stores_each ⦃E = memory_env⦄ ⦃N = test_node⦄ (memory-IsLawful no_faults)
      (memory-IsSticky no_faults) 1 0 [] two 0 test_indexer keeps (omega arith) (omega arith) refl
      (none, refl, refl)

-- After the second message of a transaction, the first one of the next transaction is skipped.
abbrev after_second : Outcome ⊤ × Indexer ⦃E = memory_env⦄ ⦃N = test_node⦄
after_second = process_msg ⦃E = memory_env⦄ ⦃N = test_node⦄ 1 0 1 put_on_auction [] test_indexer

process_msgs_skips_example :
    length
      (process_msgs ⦃E = memory_env⦄ ⦃N = test_node⦄ 2 1 []
        (put_on_auction ∷ stranger ∷ [])
        0
        after_second.1).1.world.tables.messages
    ≡ 2
unfolding process_msgs process_msg attempt conclude deferred store_message marketplace_handler
    handle dispatch create_users find_or_create_user get_account create_user update_user new_user
    get_msg_addresses collect_addresses update_cursor increase_counter
process_msgs_skips_example =
    process_msgs_skips ⦃E = memory_env⦄ ⦃N = test_node⦄ (memory-IsLawful no_faults)
      (memory-IsSticky no_faults) 1 0 2 1 [] [] put_on_auction (put_on_auction ∷ []) (stranger ∷ [])
      test_indexer keeps (omega arith) (omega arith) refl refl (none, refl, refl)

-- A block of two transactions.
abbrev block : List (List ℕ)
block = (0 ∷ []) ∷ (1 ∷ []) ∷ []

abbrev after_block : Outcome ⊤ × Indexer ⦃E = memory_env⦄ ⦃N = test_node⦄
after_block = process_txs ⦃E = memory_env⦄ ⦃N = test_node⦄ block bare_indexer

process_txs_advances_example :
    (after_block.1.cursor ≡ record { height = 6; tx_index = 0; msg_id = 0 })
    × (is_there after_block.1.store ≡ reply true)
    × (read after_block.1.store ≡ reply (marshal (next bare_indexer.cursor)))
unfolding process_txs process_all process_tx process_stored create_tx process_msgs process_msg
    attempt deferred store_message update_cursor
process_txs_advances_example =
    process_txs_advances ⦃E = memory_env⦄ ⦃N = test_node⦄ test_node-IsStore block bare_indexer refl

-- A state database that cannot be written.
abbrev full_node : Node
full_node = record test_node { put = λ b s. (some "no space", s) }

abbrev stopped : Indexer ⦃E = memory_env⦄ ⦃N = full_node⦄
stopped = record {
  db = some none;
  store = none;
  handlers = [];
  cursor = first_cursor;
  cancelled = false;
  closed = false;
  world = one_token;
}

process_txs_errors_example :
    (process_txs ⦃E = memory_env⦄ ⦃N = full_node⦄ block stopped).0
    ≢ err (errorf "unknown message route")
process_txs_errors_example =
    process_txs_errors ⦃E = memory_env⦄ ⦃N = full_node⦄ block stopped "unknown message route"

restart_resumes_example :
    (t : Indexer ⦃E = memory_env⦄ ⦃N = test_node⦄) × (new_indexer ⦃E = memory_env⦄ ⦃N = test_node⦄
        (reply after_block.1.store)
        none
        []
        one_token
      ≡ ok t)
    × (t.cursor ≡ after_block.1.cursor)
    × (t.store ≡ after_block.1.store)
unfolding process_txs process_all process_tx process_stored create_tx process_msgs process_msg
    attempt deferred store_message update_cursor
restart_resumes_example =
    restart_resumes ⦃E = memory_env⦄ ⦃N = test_node⦄ test_node-IsStore block bare_indexer none []
      one_token (omega arith) refl

-- The node does not have the block at first.
abbrev asks : List Ask
asks = (λ h. failure "Height") ∷ (λ h. reply block) ∷ []

start-Follows_example :
    (n : ℕ) × Follows ⦃E = memory_env⦄ ⦃N = test_node⦄ n asks bare_indexer
      (start ⦃E = memory_env⦄ ⦃N = test_node⦄ asks bare_indexer).1
unfolding start process_txs process_all process_tx process_stored create_tx process_msgs process_msg
    attempt deferred store_message update_cursor
start-Follows_example =
    start-Follows ⦃E = memory_env⦄ ⦃N = test_node⦄ test_node-IsStore asks bare_indexer refl

abbrev broken_indexer : Indexer ⦃E = memory_env⦄ ⦃N = test_node⦄
broken_indexer = record bare_indexer { db = some (some "fault") }

stuck_handle_passes_over_example :
    let (r, s) = process_txs ⦃E = memory_env⦄ ⦃N = test_node⦄ block broken_indexer in
    (r ≡ ok tt) × (s.world.tables ≡ one_token.tables) × (s.cursor ≡ next bare_indexer.cursor)
stuck_handle_passes_over_example =
    stuck_handle_passes_over ⦃E = memory_env⦄ ⦃N = test_node⦄ (memory-IsSticky no_faults) block
      broken_indexer (some "fault", "fault", refl, refl) refl

abbrev other_handler : MsgHandler ⦃E = memory_env⦄
other_handler = record {
  handle = λ msg events db w. (ok tt, w);
  setup = λ db w. (err (errorf "no tables"), w);
  reset = λ db w. (err (errorf "no tables"), w);
  router_keys = "a" ∷ "b" ∷ [];
  stop = λ w. (ok tt, w);
}

with_handler_routes_example :
    find_handler ⦃E = memory_env⦄ ⦃N = test_node⦄ "b"
      (with_handler ⦃E = memory_env⦄ ⦃N = test_node⦄ other_handler test_indexer).handlers
    ≡ some other_handler
with_handler_routes_example =
    with_handler_routes ⦃E = memory_env⦄ ⦃N = test_node⦄ other_handler test_indexer "b"

unmarshal-marshal_cursor_example : unmarshal (marshal first_cursor) zero_cursor ≡ reply first_cursor
unmarshal-marshal_cursor_example =
    unmarshal-marshal_cursor first_cursor zero_cursor
      (record { height = omega arith; tx_index = omega arith; msg_id = omega arith })
