-- ===== src/Database.antt =====
-- The database behind gorm: its tables, the operations of `*gorm.DB` that the code calls, and what
-- gorm documents of them. The library itself is not part of the repository, so it is an argument.
pub mod Tables
pub mod Schema
pub mod Fitting
pub mod Gorm
pub mod Memory
pub mod Frame
pub mod Log
