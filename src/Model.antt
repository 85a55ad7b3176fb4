-- ===== src/Model.antt =====
-- src/wootpilot/integrations/model.py: the adapters that ask a model for a proposal.
pub mod Prompt
pub mod Fake
pub mod Generators
pub mod Privacy
pub mod Answers
