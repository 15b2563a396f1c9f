-- ===== src/MongoDaemon/Lifecycle.antt =====
-- The start and the end of the daemon of x/mongoDaemon/service.go.
use Prim.Native.String.{String}
use dwh.Base.{List, [], ◌∷◌, ⊤}
use dwh.Common.Config.Reading.{ConfigHost, read_common_config}
use dwh.Common.Connections.{
  Call, mongo_connect, mongo_disconnect, step, Faults, perform, performing, wrapped,
  mongo_client_steps, closer_steps,
}
use dwh.Env.Action.{Outcome, ok, err, panic}
use dwh.MongoDaemon.{MongoDaemon}
use dwh.MongoDaemon.Channel.{Broker, Started, new_rmq_receiver_sender}

unfoldable pub new_mongo_daemon :
    Faults → ConfigHost → Broker → String → String → Started → Outcome MongoDaemon × Started
unfolding read_common_config new_rmq_receiver_sender mongo_client_steps perform
new_mongo_daemon F V B config_file_name config_path start =
    let cfg = read_common_config V config_file_name config_path in
    let (channel, (made1, queue)) = new_rmq_receiver_sender F V B cfg start in
    let (client, made2) = perform F (mongo_client_steps cfg) made1 in
    elim (wrapped "could not create mongo daemon, error: " channel) [
      | err e ↦ (err e, (made1, queue))
      | panic ↦ (panic, (made1, queue))
      | ok rs ↦ elim (wrapped "could not create mongo client, error: " client) [
        | err e ↦ (err e, (made2, queue))
        | panic ↦ (panic, (made2, queue))
        | ok _ ↦
            let (md, made3) =
              performing F (step mongo_connect "could not connect to mongo, error: " ∷ [])
                (record {
                  rmq_receiver_sender = rs;
                  daemon_update_percent = cfg.mongo_daemon_service.daemon_update_percent;
                })
                made2 in
            (md, (made3, queue))
      ]
    ]

unfoldable pub closer : Faults → List Call → Outcome ⊤ × List Call
unfolding perform closer_steps
closer F made =
    let (r, made1) = perform F closer_steps made in
    elim (wrapped "could not close receiver_sender, error: " r) [
      | err e ↦ (err e, made1)
      | panic ↦ (panic, made1)
      | ok _ ↦
          perform F (step mongo_disconnect "could not disconnect from mongo, error: " ∷ []) made1
    ]
