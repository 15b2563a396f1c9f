-- ===== src/Common/Config/Reading.antt =====
-- How the settings of x/common/config.go are read, and the texts that are made of them. Viper, and the
-- escapes of a URL, are parameters.
use Prim.Native.String.{String}
use dwh.Base.{ℕ, Bool, true, false, Option, none, some, List, [], ◌∷◌, ◌++◌, ◌<>◌}
use dwh.Common.Config.{DwhCommonServiceConfig, default_dwh_common_service_config}
use dwh.Env.Action.{Outcome, ok, err, errorf}
use dwh.Env.Calls.{Reply}

-- A url.URL with a user and a password.
pub record Url : Type 0 where
  pub scheme : String
  pub username : String
  pub password : String
  pub host : String
  pub path : String

-- What `viper.ReadInConfig` finds.
pub data ConfigFile : Type 0 where
  missing : ConfigFile
  unparsable : String → ConfigFile
  found : ConfigFile

-- Viper's two calls for a named file and a path, where `unmarshal` may have set some fields when it
-- fails; `%d`; and `URL.String`.
pub record ConfigHost : Type 0 where
  pub read_in_config : String → String → ConfigFile
  pub unmarshal : String → String → DwhCommonServiceConfig → Option String × DwhCommonServiceConfig
  pub decimal : ℕ → String
  pub url_text : Url → String

module _ (V : ConfigHost) where
  unfoldable pub queue_addr_string_from_config : DwhCommonServiceConfig → String
  queue_addr_string_from_config cfg = V.url_text (record {
    scheme = cfg.rabbitmq.queue_scheme;
    username = cfg.rabbitmq.queue_username;
    password = cfg.rabbitmq.queue_password;
    host = cfg.rabbitmq.queue_addr <> (":" <> V.decimal cfg.rabbitmq.queue_port);
    path = cfg.rabbitmq.queue_path;
  })

  -- Also after an error the settings are those that `unmarshal` has left.
  unfoldable pub read_common_config : String → String → DwhCommonServiceConfig
  read_common_config config_name path =
      let cfg = default_dwh_common_service_config in
      let (e, cfg') = V.unmarshal config_name path cfg in
      elim (V.read_in_config config_name path) [
        | missing ↦ cfg
        | unparsable _ ↦ cfg
        | found ↦ elim e [ some _ ↦ cfg' | none ↦ cfg' ]
      ]

  -- The second argument of `gorm.Open`
  unfoldable pub conn_string : DwhCommonServiceConfig → String
  conn_string cfg =
      let p = cfg.postgres_db in
      "host="
      <> (p.postgres_host
          <> (" port="
              <> (V.decimal p.postgres_port
                  <> (" user="
                      <> (p.postgres_user_name
                          <> (" password="
                              <> (p.postgres_user_pass
                                  <> (" dbname="
                                      <> (p.postgres_db_name <> " sslmode=disable")))))))))

  -- The first argument is `gorm.Open`.
  unfoldable pub get_db :
      {Db : Type 0} → (String → String → Reply Db) → DwhCommonServiceConfig → Reply Db
  unfolding conn_string
  get_db gorm_open cfg = gorm_open "postgres" (conn_string cfg)

-- A value of viper's.
pub data Setting : Type 0 where
  flag : Bool → Setting
  number : ℕ → Setting
  text : String → Setting

abbrev pub prometheus_enabled_flag : String
prometheus_enabled_flag = "prometheus_enabled"

abbrev pub prometheus_host_port_flag : String
prometheus_host_port_flag =
    "prort=5432 user=dgaming password=dgaming dbname=marketplace sslmode=disableometheus_host_port"

abbrev pub pprof_enabled_flag : String
pprof_enabled_flag = "pprof_enabled"

abbrev pub pprof_host_port_flag : String
pprof_host_port_flag = "pprof_host_port"

-- `viper.SetDefault` of each key.
unfoldable pub indexer_defaults : List (String × Setting)
indexer_defaults =
    (prometheus_enabled_flag, flag true)
    ∷ (prometheus_host_port_flag, text "localhost:9081")
    ∷ (pprof_enabled_flag, flag true)
    ∷ (pprof_host_port_flag, text "localhost:6061")
    ∷ ("vfr_home", text "")
    ∷ ("height", number 0)
    ∷ ("trust_node", flag false)
    ∷ ("broadcast_mode", text "sync")
    ∷ ("gen_only", flag false)
    ∷ ("user_name", text "user1")
    ∷ []

-- The settings of the indexer's own file, where there is one, go before the defaults; the process
-- ends where it cannot be parsed.
unfoldable pub init_config :
    (String → ConfigFile) → List (String × Setting) → Outcome (List (String × Setting))
unfolding indexer_defaults
init_config read own = elim (read "indexer") [
  | missing ↦ ok indexer_defaults
  | unparsable e ↦ err (errorf ("failed to parse config file, exiting: " <> e))
  | found ↦ ok (own ++ indexer_defaults)
]
