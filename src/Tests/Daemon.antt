-- ===== src/Tests/Daemon.antt =====
-- Runs of the daemon on a collection in memory.
use Prim.Native.String.{String}
use dwh.Base.{some, ◌+◌, ◌*◌, ◌≤◌, ◌<◌, ◌≡◌, ◌↔◌, refl, none, List, [], ◌∷◌, arith}
use dwh.Common.Config.{default_dwh_common_service_config}
use dwh.Common.Config.Reading.{ConfigHost, found}
use dwh.Common.Connections.{Faults, perform}
use dwh.Env.Action.{ok}
use dwh.MongoDaemon.Channel.{
  Broker, RmqReceiverSender, receiver_sender, new_rmq_receiver_sender, publish_delayed,
}
use dwh.MongoDaemon.{
  text, plain, embedded, Document, MongoDaemon, State, Turn, update_count, read_document,
  process_message, run,
}
use dwh.MongoDaemon.Limit.{update_count_bounds}
use dwh.MongoDaemon.Loop.{count_key, daemon_keeps_turning}
use dwh.MongoDaemon.Starving.{skipped_documents_starve}
use dwh.MongoDaemon.Memory.{Entry, memory, memory_keeps_times}
use dwh.MongoDaemon.Refresh.{Progress, tasks_of, found_documents, process_message-Progress}

update_count_bounds_example :
    (update_count 57 20 * 100 ≤ 57 * 20)
    × (57 * 20 < update_count 57 20 * 100 + 100)
    × (update_count 57 20 ≤ 57)
    × ((update_count 57 20 ≡ 0) ↔ (57 * 20 < 100))
update_count_bounds_example = update_count_bounds 57 20 (omega arith) (omega arith)

abbrev pub broker : Broker
broker = λ p. none

abbrev pub data_of : String → Document
data_of id =
    ("_id", plain (text id))
    ∷ (
      "dwhData",
      embedded (("owner", text "alice") ∷ ("url", text "uri") ∷ ("tokenID", text id) ∷ []),
    )
    ∷ []

-- The broker is gone by the second delivery.
abbrev turns : List Turn
turns =
    record { time = 5; broker = broker }
    ∷ record { time = 6; broker = λ p. some "channel/connection is not open" }
    ∷ []

abbrev tokens : List Entry
tokens =
    record { id = "a"; document = data_of "a"; last_checked = 1 }
    ∷ record { id = "b"; document = ("_id", plain (text "b")) ∷ []; last_checked = 2 }
    ∷ record { id = "c"; document = data_of "c"; last_checked = 3 }
    ∷ []

abbrev pub queues : RmqReceiverSender
queues = receiver_sender default_dwh_common_service_config

abbrev daemon : MongoDaemon
daemon = record { rmq_receiver_sender = queues; daemon_update_percent = 20 }

abbrev idle : State memory
idle = record { collection = tokens; queue = [] }

process_message-Progress_example :
    Progress memory broker memory_keeps_times queues 9
      (tasks_of (found_documents memory broker daemon idle))
      idle
      (process_message memory broker daemon 9 idle)
process_message-Progress_example =
    process_message-Progress memory broker memory_keeps_times daemon 9 idle

abbrev viper : ConfigHost
viper = record {
  read_in_config = λ name path. found;
  unmarshal = λ name path cfg. (none, cfg);
  decimal = λ n. "0";
  url_text = λ u. "url";
}

abbrev no_faults : Faults
no_faults = λ made c. none

daemon_keeps_turning_example :
    let out = run memory (ok turns) daemon (record {
      collection = tokens;
      queue =
          (new_rmq_receiver_sender no_faults viper broker default_dwh_common_service_config
            ([], [])).1.1;
    }) in
    (out.0 ≡ ok tt) × (out.1.1 ≡ 2) × (count_key "daemon_delayed_mongo_tasks" out.1.0.queue ≡ 2)
unfolding new_rmq_receiver_sender perform publish_delayed
daemon_keeps_turning_example =
    daemon_keeps_turning memory no_faults viper broker default_dwh_common_service_config [] [] 20
      tokens turns (λ h. cc) refl

-- A document without the daemon's fields.
abbrev bare : List Document
bare = (("_id", plain (text "b")) ∷ []) ∷ []

abbrev stuck : State memory
stuck = record {
  collection =
      record { id = "b"; document = ("_id", plain (text "b")) ∷ []; last_checked = 2 } ∷ tokens;
  queue = [];
}

abbrev slow_daemon : MongoDaemon
slow_daemon = record { rmq_receiver_sender = queues; daemon_update_percent = 25 }

skipped_documents_starve_example :
    let out = run memory (ok turns) slow_daemon stuck in
    (out.1.0.collection ≡ stuck.collection) × (count_key "dwh_uri_tasks" out.1.0.queue ≡ 0)
unfolding update_count read_document
skipped_documents_starve_example =
    skipped_documents_starve memory slow_daemon bare turns stuck
      (("no dwhData field in document", refl), tt) (λ h. cc) refl
