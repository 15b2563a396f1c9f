-- ===== src/IndexerMain.antt =====
-- cmd/indexer/main.go, with `NewMarketplaceHandler` of x/indexer/handlers/marketplace.go and `GetEnv`
-- of marketplace_env.go: how the indexer is put together and started. The servers of pprof and of
-- the metrics are not modelled.
pub mod Following
pub mod Stopping
use Prim.Native.String.{String}
use dwh.Base.{Bool, if◌then◌else◌, Option, none, some, List, [], ◌∷◌, ⊤, ◌<>◌}
use dwh.Common.Config.{DwhCommonServiceConfig}
use dwh.Common.Config.Reading.{
  ConfigHost, ConfigFile, Setting, read_common_config, get_db, init_config,
}
use dwh.Common.Connections.{Call, Faults, new_rmq_sender}
use dwh.Common.Metrics.{CounterVec, new_prometheus_msg_metrics}
use dwh.Env.Action.{World, Outcome, ok, err, panic, errorf, error_text}
use dwh.Env.Calls.{Env, Db, Reply, reply, failure}
use dwh.Marketplace.Users.{MarketplaceHandler}
use dwh.Indexer.State.{Node, Indexer, Run}
use dwh.Indexer.Blocks.{Ask, Progress, running, returned, start, process_txs}
use dwh.Indexer.Lifecycle.{new_indexer, setup, stop}
use dwh.Indexer.Routes.{marketplace_handler}

-- The libraries that the start calls: prometheus.Register, `NewContext` of the node's client with
-- the chain, the address and the home of its keys, gorm.Open, and the opening of the state database
-- at a path.
pub record Libraries ⦃E : Env⦄ ⦃N : Node⦄ : Type 1 where
  pub register : CounterVec → Option String
  pub new_context : String → String → String → Option String
  pub gorm_open : String → String → Reply Db
  pub open_store : String → Reply N.Store

-- An error ends the process.
unfoldable pub new_marketplace_handler :
    Faults
    → ConfigHost
    → (CounterVec → Option String)
    → List Call
    → Outcome MarketplaceHandler × List Call
unfolding new_prometheus_msg_metrics read_common_config new_rmq_sender
new_marketplace_handler F V register made =
    let cfg = read_common_config V "config" "/root/" in
    let t = cfg.token_metadata_service in
    let (sender, made') = new_rmq_sender F V cfg t.uri_queue_name t.uri_queue_max_priority made in
    elim (new_prometheus_msg_metrics register "marketplace") [
      | panic ↦ (panic, made)
      | err e ↦ (err e, made)
      | ok _ ↦ (
        elim sender [ ok s ↦ ok (record { uri_sender = s }) | err e ↦ err e | panic ↦ panic ],
        made',
      )
    ]

-- A signal, with the text of its error: the request that `Start` has made and not yet got the
-- answer to, if there is one, and whether `Start` returns before `Stop` does.
pub record Signal : Type 0 where
  pub text : String
  pub in_flight : Option Ask
  pub start_first : Bool

module _ ⦃E : Env⦄ ⦃N : Node⦄ where
  unfoldable pub get_env : Libraries → DwhCommonServiceConfig → Outcome ⊤
  get_env L cfg =
      elim (L.new_context cfg.indexer.chain_id cfg.indexer.marketplace_addr cfg.indexer.cli_home) [
        | some e ↦ err (errorf e)
        | none ↦ ok tt
      ]

  -- How `Start` ends after `Stop`. The lock of `processTxs` keeps the two apart, but not from the
  -- request or the sleep before it: `Stop` may find `Start` there, and the answer to that request
  -- comes afterwards.
  unfoldable pub finish : Option Ask → Run ⊤
  unfolding process_txs
  finish none s = (ok tt, s)
  finish (some ask) s = elim (ask s.cursor.height) [
    | failure _ ↦ (ok tt, s)
    | reply txs ↦
        let (r, s') = process_txs txs s in
        (
          elim r [
            | ok _ ↦ ok tt
            | err e ↦ err (errorf ("failed to processTxs: " <> error_text e))
            | panic ↦ panic
          ],
          s',
        )
  ]

  -- The error that the group keeps when a signal has come is the first one: the signal's, unless
  -- `Start` returns one before `Stop` has returned.
  abbrev pub first_error : Signal → Outcome ⊤ → String
  first_error signal (err e) = if signal.start_first then error_text e else signal.text
  first_error signal (ok _) = signal.text
  first_error signal panic = signal.text

  -- A signal has come while `Start` was running.
  unfoldable pub interrupted : Signal → Indexer → Outcome Progress × Indexer
  unfolding stop finish
  interrupted signal s =
      let (r, s1) = stop s in
      let (r', s2) = finish signal.in_flight s1 in
      elim r [
        | panic ↦ (panic, s1)
        | err e ↦ (err (errorf ("indexer stopped: " <> signal.text)), s1)
        | ok _ ↦ elim r' [
          | panic ↦ (panic, s2)
          | ok a ↦ (err (errorf ("indexer stopped: " <> first_error signal (ok a))), s2)
          | err e ↦ (err (errorf ("indexer stopped: " <> first_error signal (err e))), s2)
        ]
      ]

  -- The group of `Start` and of the wait for a signal, which may come after these turns of `Start`.
  -- The first error of the two ends the process; when `Start` returns one, `Stop` is called too.
  unfoldable pub run_group : List Ask → Option Signal → Indexer → Outcome Progress × Indexer
  unfolding start stop interrupted
  run_group asks signal s =
      let (p, s1) = start asks s in
      let (r, s2) = stop s1 in
      elim p [
        | returned panic ↦ (panic, s1)
        | returned (err e) ↦ elim r [
          | panic ↦ (panic, s2)
          | ok _ ↦ (err (errorf ("indexer stopped: " <> error_text e)), s2)
          | err _ ↦ (err (errorf ("indexer stopped: " <> error_text e)), s2)
        ]
        | returned (ok _) ↦ elim signal [
          | none ↦ (ok (returned (ok tt)), s1)
          | some sig ↦ interrupted (record sig { in_flight = none }) s1
        ]
        | running ↦ elim signal [ none ↦ (ok running, s1) | some sig ↦ interrupted sig s1 ]
      ]

  -- From `Setup` on.
  unfoldable pub run_indexer :
      DwhCommonServiceConfig → List Ask → Option Signal → Indexer → Outcome (Progress × Indexer)
  unfolding setup run_group
  run_indexer cfg asks signal s =
      let (r, s1) = setup cfg.indexer.reset_database s in
      let (p, s2) = run_group asks signal s1 in
      elim r [
        | err e ↦ err (errorf ("failed to setup Indexer: " <> error_text e))
        | panic ↦ panic
        | ok _ ↦ elim p [ ok q ↦ ok (q, s2) | err e ↦ err e | panic ↦ panic ]
      ]

  -- An error ends the process, with its text.
  unfoldable pub main :
      Libraries
      → Faults
      → ConfigHost
      → (String → ConfigFile)
      → List (String × Setting)
      → List Ask
      → Option Signal
      → World
      → Outcome (Progress × Indexer)
  unfolding init_config read_common_config get_db get_env new_marketplace_handler new_indexer
      marketplace_handler run_indexer
  main L F V read own asks signal w =
      let cfg = read_common_config V "config" "/root/" in
      let (handler, _) = new_marketplace_handler F V L.register [] in
      elim (init_config read own) [
        | err e ↦ err e
        | panic ↦ panic
        | ok _ ↦ elim (get_db V L.gorm_open cfg) [
          | failure e ↦ err (errorf ("failed to establish database connection: " <> e))
          | reply db ↦ elim (get_env L cfg) [
            | err e ↦ err (errorf ("failed to get env: " <> error_text e))
            | panic ↦ panic
            | ok _ ↦ elim handler [
              | err e ↦ err e
              | panic ↦ panic
              | ok m ↦
                  elim (new_indexer (L.open_store cfg.indexer.state_path) db
                    (marketplace_handler m ∷ []) w) [
                      | err e ↦ err (errorf ("failed to create new indexer: " <> error_text e))
                      | panic ↦ panic
                      | ok s ↦ run_indexer cfg asks signal s
                    ]
            ]
          ]
        ]
      ]
