-- ===== src/Workflow.antt =====
-- src/wootpilot/workflow: the support graph, from the eligibility check to the final decision.
pub mod Decisions
pub mod Graph
pub mod Turn
pub mod Outcomes
pub mod Totality
pub mod Safety
pub mod Review
