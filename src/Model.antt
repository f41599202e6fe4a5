-- ===== src/Model.antt =====
-- The data that the server's services share.
pub mod Errors
pub mod Entities
pub mod Tables
pub mod World
pub mod Statements
