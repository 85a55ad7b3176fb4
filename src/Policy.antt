-- ===== src/Policy.antt =====
-- src/wootpilot/application/policy.py and text.py: deterministic triage and policy.
pub mod Searchable
pub mod Rules
pub mod Eligibility
pub mod PublicText
