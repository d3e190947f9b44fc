-- ===== src/Http.antt =====
-- internal/http: the webhook, the web UI's forms and handlers.
pub mod Reply
pub mod Forms
pub mod Rules
pub mod Webhook
pub mod Alerts
pub mod ApiKeys
pub mod Settings
pub mod Dashboard
pub mod Server
