-- ===== src/Outbound.antt =====
-- src/wootpilot/application/outbound.py: the worker that sends queued actions to Chatwoot.
pub mod Checks
pub mod Action
pub mod Executor
pub mod Posts
pub mod Conditions
pub mod Clearance
pub mod Retries
