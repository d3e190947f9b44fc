-- ===== src/Db.antt =====
-- internal/db: the Postgres tables and the statements that read and write them.
pub mod Member
pub mod Groups
pub mod Rules
pub mod ApiKeys
pub mod Alerts
pub mod Sessions
pub mod Providers
pub mod Connect
