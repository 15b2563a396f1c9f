-- ===== src/Commands.antt =====
-- cmd/imgworker/main.go, cmd/tokenMetadataWorker/main.go and cmd/mongoDaemon/main.go: a service is
-- started, goes through its deliveries and is closed. The error of `Run` is printed, that of the
-- deferred `Closer` is dropped, and an error of the start is a panic.
use dwh.Base.{ℕ, List, ⊤}
use dwh.Common.Config.Reading.{ConfigHost}
use dwh.Common.Connections.{Call, Faults, get_message_chan}
use dwh.Common.Queue.{Body}
use dwh.Env.Action.{Outcome, ok, err, panic}
use dwh.ImageResizer.{Host, StorageService}
use dwh.ImageResizer.Processing.{run as run_resizer}
use dwh.ImageResizer.Lifecycle.{new_image_processing_worker, closer as close_resizer}
use dwh.MetadataWorker.{Host as WorkerHost, State as WorkerState}
use dwh.MetadataWorker.Service.{
  new_token_metadata_worker, run as run_worker, closer as close_worker,
}
use dwh.MongoDaemon.{MongoCollection, State, Turn, run as run_daemon}
use dwh.MongoDaemon.Channel.{Broker, get_task_message_chan}
use dwh.MongoDaemon.Lifecycle.{new_mongo_daemon, closer as close_daemon}

-- The deliveries that come in once the channel is there.
abbrev consumed {ℓ} : {A : Type ℓ} → Outcome ⊤ → A → Outcome A
consumed (ok _) msgs = ok msgs
consumed (err e) msgs = err e
consumed panic msgs = panic

-- What `Run` has returned with the state and the number of acknowledgements, if it was called, and
-- the calls that were made.
abbrev pub Ended : Type 0 → Type 0
Ended S = Outcome ⊤ × (S × ℕ) × List Call

unfoldable pub image_worker :
    (H : Host) (S : StorageService)
    → Faults
    → ConfigHost
    → List Body
    → S.Storage
    → List Call
    → Ended S.Storage
unfolding new_image_processing_worker get_message_chan run_resizer close_resizer
image_worker H S F V msgs s made =
    let (w, made1) = new_image_processing_worker F V "config" "/root/" made in
    elim w [
      | err _ ↦ (panic, (s, 0), made1)
      | panic ↦ (panic, (s, 0), made1)
      | ok v ↦
          let (c, made2) = get_message_chan F v.receiver made1 in
          let (r, end) = run_resizer H S (consumed c msgs) v.worker s in
          let (_, made3) = close_resizer F made2 in (r, end, made3)
    ]

unfoldable pub token_metadata_worker :
    WorkerHost → Faults → ConfigHost → List (Body × ℕ) → WorkerState → List Call → Ended WorkerState
unfolding new_token_metadata_worker get_message_chan run_worker close_worker
token_metadata_worker H F V msgs s made =
    let (w, made1) = new_token_metadata_worker F V "config" "/root/" made in
    elim w [
      | err _ ↦ (panic, (s, 0), made1)
      | panic ↦ (panic, (s, 0), made1)
      | ok v ↦
          let (c, made2) = get_message_chan F v.receiver made1 in
          let (r, end) = run_worker H (consumed c msgs) v.worker s in
          let (_, made3) = close_worker F made2 in (r, end, made3)
    ]

unfoldable pub mongo_daemon :
    (M : MongoCollection) (B : Broker)
    → Faults
    → ConfigHost
    → List Turn
    → State M
    → List Call
    → Ended (State M)
unfolding new_mongo_daemon get_task_message_chan run_daemon close_daemon
mongo_daemon M B F V msgs s made =
    let (w, (made1, queue)) = new_mongo_daemon F V B "config" "/root/" (made, s.queue) in
    let s1 : State M = record s { queue = queue } in
    elim w [
      | err _ ↦ (panic, (s1, 0), made1)
      | panic ↦ (panic, (s1, 0), made1)
      | ok md ↦
          let (c, made2) = get_task_message_chan F md.rmq_receiver_sender made1 in
          let (r, end) = run_daemon M (consumed c msgs) md s1 in
          let (_, made3) = close_daemon F made2 in (r, end, made3)
    ]
