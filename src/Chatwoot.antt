-- ===== src/Chatwoot.antt =====
-- src/wootpilot/integrations/chatwoot.py: the translation of webhook payloads, and the client that
-- writes to Chatwoot.
pub mod Payload
pub mod Messages
pub mod Events
pub mod Deliveries
pub mod Responses
pub mod Client
pub mod Failures
pub mod Closed
pub mod Labels
pub mod Silence
pub mod Kinds
pub mod IntegerIds
pub mod Suppression
