-- ===== src/Marketplace.antt =====
-- x/indexer/handlers/marketplace.go: the handler of the messages of the marketplace.
pub mod Messages
pub mod Lookup
pub mod Users
pub mod Tokens
pub mod Auctions
pub mod Trades
pub mod Handle
pub mod View
pub mod Schema
