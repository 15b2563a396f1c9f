-- ===== src/Common.antt =====
-- x/common: the row types and their constructors, queue priorities, task messages, metrics labels.
pub mod Types
pub mod Rows
pub mod Queue
pub mod Metrics
pub mod Config
pub mod Connections
