-- ===== src/Tests/Main.antt =====
-- A start of the indexer on an empty database.
use Prim.Native.String.{String}
use dwh.Base.{
  ◌⊎◌, ◌<>◌, if◌then◌else◌, Option, Bool, ℕ, ◌+◌, ◌%◌, ◌≡◌, refl, true, false, none, some, List, [],
  ◌∷◌,
}
use dwh.Common.Config.Reading.{
  ConfigHost, missing, read_common_config, get_db, conn_string, init_config,
  queue_addr_string_from_config, indexer_defaults,
}
use dwh.Common.Connections.{Faults, perform, new_rmq_sender, sender_steps}
use dwh.Common.Metrics.{new_prometheus_msg_metrics}
use dwh.Database.Memory
use dwh.Database.Memory.{memory-IsLawfulSchema, memory-IsSticky, memory-IsClosing}
use dwh.Database.Schema.{contains}
use dwh.Database.Tables.{Table}
use dwh.Env.Action.{Outcome, ok, err, panic, errorf}
use dwh.Env.Calls.{reply, failure}
use dwh.Env.Memory.{no_tables, no_world}
use dwh.Marketplace.Schema.Fitting.{OwnKeysFit}
use dwh.Indexer.Cursor.{first_cursor, word, next, Stored, marshal as marshal_cursor}
use dwh.Indexer.State.{Node, IsClosingStore, Indexer, update_cursor}
use dwh.Indexer.Blocks.{Ask, Progress, running, returned, start, process_txs, process_all}
use dwh.Indexer.Blocks.Heights.{Follows}
use dwh.Indexer.Lifecycle.{
  new_indexer, with_handlers, with_handler, restore_cursor, setup, setup_indexer_tables,
  setup_modules, setup_module, drop_own_tables, stop, stop_handlers,
}
use dwh.Indexer.Lifecycle.Preparing.{Ready}
use dwh.Indexer.Routes.{marketplace_handler}
use dwh.IndexerMain.{
  Libraries, Signal, get_env, new_marketplace_handler, run_indexer, run_group, main,
}
use dwh.IndexerMain.Following.{main-Follows}
use dwh.IndexerMain.Stopping.{cursor_lost, signal_stops}
use dwh.Marketplace.Schema
use dwh.Tests.Data.{memory_env, test_node, test_node-IsStore, is_there, read}

abbrev viper : ConfigHost
viper = record {
  read_in_config = λ name path. missing;
  unmarshal = λ name path cfg. (none, cfg);
  decimal = λ n. "0";
  url_text = λ u. "url";
}

abbrev no_faults : Faults
no_faults = λ made c. none

abbrev libraries : Libraries ⦃E = memory_env⦄ ⦃N = test_node⦄
libraries = record {
  register = λ v. none;
  new_context = λ chain addr home. none;
  gorm_open = λ dialect text. reply none;
  open_store = λ path. reply none;
}

-- The node does not have the first block at first, and it is empty.
abbrev asks : List Ask
asks = (λ h. failure "Height") ∷ (λ h. reply []) ∷ []

abbrev outcome : Outcome (Progress × Indexer ⦃E = memory_env⦄ ⦃N = test_node⦄)
outcome =
    main ⦃E = memory_env⦄ ⦃N = test_node⦄ libraries no_faults viper (λ name. missing) [] asks none
      no_world

abbrev is_running : Outcome (Progress × Indexer ⦃E = memory_env⦄ ⦃N = test_node⦄) → Bool
is_running (ok (running, s)) = true
is_running (ok (returned r, s)) = false
is_running (err e) = false
is_running panic = false

is_running_lem :
    (o : Outcome (Progress × Indexer ⦃E = memory_env⦄ ⦃N = test_node⦄))
    → is_running o ≡ true
    → (t : Indexer ⦃E = memory_env⦄ ⦃N = test_node⦄) × (o ≡ ok (running, t))
is_running_lem (ok (running, s)) h = (s, refl)
is_running_lem (ok (returned r, s)) h = cc
is_running_lem (err e) h = cc
is_running_lem panic h = cc

outcome-is_running : is_running outcome ≡ true
unfolding main init_config indexer_defaults get_db conn_string read_common_config get_env
    new_marketplace_handler new_prometheus_msg_metrics new_rmq_sender sender_steps
    queue_addr_string_from_config perform new_indexer with_handlers with_handler restore_cursor
    run_indexer run_group setup setup_indexer_tables drop_own_tables setup_modules setup_module
    marketplace_handler Schema.router_keys Schema.setup Schema.ensure_tables Schema.ensure_table
    Schema.add_keys Schema.add_key start process_txs process_all update_cursor marshal_cursor
outcome-is_running = refl

abbrev reached : Indexer ⦃E = memory_env⦄ ⦃N = test_node⦄
reached = (is_running_lem outcome outcome-is_running).0

no_rows_fit : OwnKeysFit no_tables
no_rows_fit = (refl, (refl, (refl, (refl, (refl, (refl, (refl, (refl, tt))))))))

main-Follows_example :
    (s : Indexer ⦃E = memory_env⦄ ⦃N = test_node⦄) × (n : ℕ) × (s.cursor ≡ first_cursor)
    × Ready ⦃E = memory_env⦄ ⦃N = test_node⦄ s
    × ((b : Table) → contains b s.world.tables.existing ≡ true)
    × Follows ⦃E = memory_env⦄ ⦃N = test_node⦄ n asks s reached
    × (reached.cursor.height ≡ (1 + n) % word)
unfolding get_db
main-Follows_example =
    main-Follows ⦃E = memory_env⦄ ⦃N = test_node⦄ memory-IsLawfulSchema test_node-IsStore libraries
      no_faults viper (λ name. missing) [] asks none no_world none none reached refl refl tt
      no_rows_fit refl refl (is_running_lem outcome outcome-is_running).1

-- A state database that can be closed.
abbrev closing_node : Node
closing_node = record test_node {
  Store = Bool × Option Stored;
  has = λ s. is_there s.1;
  get = λ s. read s.1;
  put = λ b s. if s.0 then (some "leveldb: closed", s) else (none, (false, some b));
  close = λ s. (true, s.1);
}

closing_node-IsClosingStore : IsClosingStore closing_node
closing_node-IsClosingStore = record { put_closed = λ b s. ("leveldb: closed", refl) }

abbrev open_indexer : Indexer ⦃E = memory_env⦄ ⦃N = closing_node⦄
open_indexer = record {
  db = some none;
  store = (false, none);
  handlers = [];
  cursor = first_cursor;
  cancelled = false;
  closed = false;
  world = no_world;
}

-- The signal comes while the node is asked for the next block, which it has.
abbrev interrupt : Signal
interrupt = record {
  text = "interrupt";
  in_flight = some (λ h. reply ((0 ∷ []) ∷ []));
  start_first = true;
}

signal_stops_example :
    let t = (start ⦃E = memory_env⦄ ⦃N = closing_node⦄ asks open_indexer).1 in
    let out = run_group ⦃E = memory_env⦄ ⦃N = closing_node⦄ asks (some interrupt) open_indexer in
    (text : String) × (out.0 ≡ err (errorf ("indexer stopped: " <> text)))
    × ((text ≡ "interrupt") ⊎ (text ≡ cursor_lost))
    × (out.1.store ≡ (true, t.store.1))
    × (out.1.world.tables ≡ (stop ⦃E = memory_env⦄ ⦃N = closing_node⦄ t).1.world.tables)
    × ((out.1.cursor ≡ t.cursor) ⊎ (out.1.cursor ≡ next t.cursor))
unfolding start process_txs process_all update_cursor marshal_cursor stop stop_handlers
signal_stops_example =
    signal_stops ⦃E = memory_env⦄ ⦃N = closing_node⦄ (memory-IsSticky Memory.no_faults)
      (memory-IsClosing Memory.no_faults) closing_node-IsClosingStore asks interrupt open_indexer
      refl refl
