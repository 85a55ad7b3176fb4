-- ===== src/Support.antt =====
-- src/wootpilot/application/workflow.py: the service around the support graph.
pub mod Recording
pub mod Queueing
pub mod Idempotence
