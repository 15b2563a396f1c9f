-- ===== src/Indexer.antt =====
-- x/indexer: the loop that reads blocks from the node, stores their transactions and messages, and
-- hands each message to the handler of its route.
pub mod Cursor
pub mod State
pub mod Messages
pub mod Blocks
pub mod Lifecycle
pub mod Routes
