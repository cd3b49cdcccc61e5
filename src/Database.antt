-- ===== src/Database.antt =====
-- The database behind the backend, its errors, and gorm's transactions and statements.
pub mod Error
pub mod Tables
pub mod Tx
pub mod Statement
