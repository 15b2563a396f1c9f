-- ===== src/Lib.antt =====
-- The data warehouse of the marketplace: an indexer follows a chain through a node, stores each
-- transaction and message in PostgreSQL, and hands each message to the handler of its route; the
-- marketplace handler keeps the tables of tokens, offers, bids, fungible tokens and users, and sends
-- tasks to the workers that look after the tokens' metadata and images.
--
-- What is modelled, by module:
--   Base         names, lists and Boolean tests that all modules share.
--   Common       x/common: the row types and their constructors (types.go), the tasks and
--                `RMQSender.Publish` (rabbit_sender.go), the counter of messages (metrics.go), the
--                settings (config.go), and how a service connects to RabbitMQ and MongoDB, as the
--                calls that it makes up to the first that fails (Connections: rabbit_receiver.go,
--                rabbit_sender.go, mongo.go).
--   Database     what gorm and PostgreSQL do for the code. Tables has the contents; Gorm has the
--                calls as an interface, with `IsLawful`, `IsSticky`, `IsLawfulSchema` and
--                `IsClosing` for what the code relies on; Fitting tells which foreign keys the rows
--                allow; Memory is a database that meets the laws, for the examples.
--   Env          a Go call as a function of the world that returns a value, an error or a panic
--                (Action), and what is outside the repository as the record `Env` (Calls): gorm,
--                the SDK's texts, the node's answers, the broker and the counters.
--   Marketplace  x/indexer/handlers/marketplace.go. Users has findOrCreateUser, getAccount and
--                queryNFT; Lookup has getEventAttr and getMsgAddresses; Tokens, Auctions and Trades
--                have the cases of Handle; Handle puts them together; Schema has Setup, Reset and
--                RouterKeys. View is the abstract view of a token that the cases refine.
--   Indexer      x/indexer. Cursor has cursor.go; State has the struct, handlers/interface.go and
--                updateCursor; Messages has processMsg, with its deferred function; Blocks has
--                processTxs and Start; Lifecycle has NewIndexer, WithHandler, Setup and Stop; Routes
--                makes the marketplace handler one of the indexer's.
--   IndexerMain  cmd/indexer/main.go, with NewMarketplaceHandler and GetEnv: how the indexer is put
--                together, set up and started.
--   ImageStorage x/imgstorage/storage.go: storeImg, loadImg and getCheckFile on a directory of files
--                per owner, where an owner's path is also a pattern of filepath.Glob, with the requests of x/common/rest.go; Handlers has handlers.go.
--   ImageResizer x/imgresizer/resizer.go: checkImgExistence, sendImage and checkAndSendImage on the
--                interface `StorageService`, which Service fills with the handlers of ImageStorage
--                behind a network that may fail; Processing has decodeImage, ProcessMessage and Run.
--   MetadataWorker  x/tokenMetadataService/service.go: processMessage and upsertTokenMetadata;
--                Service has the start, the loop and the end.
--   MongoDaemon  x/mongoDaemon/service.go: processMessage and Run on the interface
--                `MongoCollection`, with `KeepsTimes` and `FindsOldest` for what it promises and
--                Memory as one that keeps the first; Channel has receiver_sender.go.
--   Commands     cmd/imgworker, cmd/tokenMetadataWorker and cmd/mongoDaemon: start, loop and end.
--   Pipeline     a task on its way from the daemon through the metadata worker to the resizer.
--   Tests        concrete runs.
--
-- A function of the source has its name in snake_case here; a case of `Handle` has the name of its
-- message. A function of a `*gorm.DB` takes the handle and returns the new one, and the tables are
-- part of the world, so that what is written before an error stays written. A nil pointer that is
-- dereferenced is the outcome `panic`. An int64 or int of the cursor is its bit pattern below 2 ^ 64
-- with the wrap-around written out. All loops are recursions on a list. `Start` runs over the
-- answers that the node gives in its turns, and is still running when they are used up; no fuel is
-- used anywhere else.
--
-- A signal to the indexer comes after some turns of `Start`, with or without a request to the node
-- in flight; `Stop` then comes before the answer, as the lock of `processTxs` allows.
--
-- Not modelled: logging, the lock itself and the waiting of the indexer, the servers of
-- cmd/indexer/main.go and cmd/imgstorage/main.go, and the text of the schema in
-- x/tokenMetadataService/types.go. The documents that a daemon's cursor yields are those of the
-- start of its run. The bodies of requests between the resizer and the storage are read as they were
-- written, since both sides use the structs of x/common/rest.go. The libraries are arguments of the
-- model.
pub mod Base
pub mod Commands
pub mod Common
pub mod Database
pub mod Env
pub mod ImageStorage
pub mod ImageResizer
pub mod Indexer
pub mod IndexerMain
pub mod Marketplace
pub mod MetadataWorker
pub mod MongoDaemon
pub mod Pipeline
pub mod Tests
