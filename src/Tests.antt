-- ===== src/Tests.antt =====
-- Runs of the definitions on concrete data, and the theorems at concrete data.
mod Data
mod Flush
mod Groups
mod Ingest
mod Webhook
mod Auth
mod Messages
mod Rules
mod Order
mod Dashboard
mod Ui
mod Cleanup
mod Posted
mod Legacy
mod Forms
