-- ===== src/Common/Config.antt =====
-- x/common/config.go: the services' settings and their defaults. An int is its bit pattern.
pub mod Reading
use Prim.Native.String.{String}
use dwh.Base.{ℕ, Bool, false, List, [], ◌∷◌}

pub record Resolution : Type 0 where
  pub width : ℕ
  pub height : ℕ

pub record IndexerCfg : Type 0 where
  pub state_path : String
  pub reset_database : Bool
  pub marketplace_addr : String
  pub chain_id : String
  pub cli_home : String

pub record RabbitMqCfg : Type 0 where
  pub queue_scheme : String
  pub queue_addr : String
  pub queue_port : ℕ
  pub queue_path : String
  pub queue_username : String
  pub queue_password : String
  pub exchange_name : String

pub record ImgResizerServiceCfg : Type 0 where
  pub img_queue_name : String
  pub img_queue_max_priority : ℕ
  pub img_queue_prefetch_count : ℕ
  pub interpolation_method : ℕ
  pub resolutions : List Resolution

pub record ImgStorageServiceCfg : Type 0 where
  pub storage_addr : String
  pub storage_port : ℕ
  pub storage_compressed_option : Bool
  pub storage_disk_path : String

pub record TokenMetadataServiceCfg : Type 0 where
  pub uri_queue_name : String
  pub uri_queue_max_priority : ℕ
  pub uri_queue_prefetch_count : ℕ

pub record MongoDaemonServiceCfg : Type 0 where
  pub daemon_task_queue_name : String
  pub daemon_delayed_queue_name : String
  pub daemon_task_queue_max_priority : ℕ
  pub daemon_task_queue_prefetch_count : ℕ
  pub daemon_ttl_seconds : ℕ
  pub daemon_update_percent : ℕ

pub record MongoDbCfg : Type 0 where
  pub mongo_user_name : String
  pub mongo_user_pass : String
  pub mongo_host : String
  pub mongo_database : String
  pub mongo_collection : String

pub record PostgresCfg : Type 0 where
  pub postgres_user_name : String
  pub postgres_user_pass : String
  pub postgres_host : String
  pub postgres_port : ℕ
  pub postgres_db_name : String

-- The embedded structs, by the names of their sections.
pub record DwhCommonServiceConfig : Type 0 where
  pub indexer : IndexerCfg
  pub rabbitmq : RabbitMqCfg
  pub img_resizer_service : ImgResizerServiceCfg
  pub img_storage_service : ImgStorageServiceCfg
  pub token_metadata_service : TokenMetadataServiceCfg
  pub mongo_daemon_service : MongoDaemonServiceCfg
  pub mongo_db : MongoDbCfg
  pub postgres_db : PostgresCfg

abbrev pub default_dwh_common_service_config : DwhCommonServiceConfig
default_dwh_common_service_config = record {
  indexer = record {
    state_path = "./indexer.state";
    reset_database = false;
    marketplace_addr = "tcp://localhost:26657";
    chain_id = "mpchain";
    cli_home = ".mpcli";
  };
  rabbitmq = record {
    queue_scheme = "amqp";
    queue_addr = "localhost";
    queue_port = 5672;
    queue_path = "";
    queue_username = "guest";
    queue_password = "guest";
    exchange_name = "dwh_direct_exchange";
  };
  img_resizer_service = record {
    img_queue_name = "dwh_img_tasks";
    img_queue_max_priority = 10;
    img_queue_prefetch_count = 1;
    interpolation_method = 2;
    resolutions = record { width = 200; height = 150 } ∷ record { width = 120; height = 90 } ∷ [];
  };
  img_storage_service = record {
    storage_addr = "http://127.0.0.1";
    storage_port = 11535;
    storage_compressed_option = false;
    storage_disk_path = "/root/dwh_storage";
  };
  token_metadata_service = record {
    uri_queue_name = "dwh_uri_tasks";
    uri_queue_max_priority = 10;
    uri_queue_prefetch_count = 1;
  };
  mongo_daemon_service = record {
    daemon_task_queue_name = "daemon_mongo_tasks";
    daemon_delayed_queue_name = "daemon_delayed_mongo_tasks";
    daemon_task_queue_max_priority = 10;
    daemon_task_queue_prefetch_count = 1;
    daemon_ttl_seconds = 21600;
    daemon_update_percent = 20;
  };
  mongo_db = record {
    mongo_user_name = "dgaming";
    mongo_user_pass = "dgaming";
    mongo_host = "localhost:27017";
    mongo_database = "dgaming";
    mongo_collection = "token_metadata";
  };
  postgres_db = record {
    postgres_user_name = "dgaming";
    postgres_user_pass = "dgaming";
    postgres_host = "localhost";
    postgres_port = 5432;
    postgres_db_name = "marketplace";
  };
}
