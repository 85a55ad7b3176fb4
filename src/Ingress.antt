-- ===== src/Ingress.antt =====
-- src/wootpilot/application/webhooks.py and security.py: what happens to a delivery before the
-- support graph runs.
pub mod State
pub mod Webhooks
pub mod Signature
pub mod Suppression
pub mod Events
pub mod Deliveries
pub mod Quiet
