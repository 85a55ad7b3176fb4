-- ===== src/Persistence.antt =====
-- src/wootpilot/persistence: the tables, and the repository that the use cases write through.
pub mod Rows
pub mod MessageOrder
pub mod Repository
pub mod Queue
pub mod DueTime
pub mod Claims
pub mod Oldest
pub mod Superseding
