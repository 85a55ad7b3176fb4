-- ===== src/Domain.antt =====
-- src/wootpilot/domain/models: the data that the use cases exchange.
pub mod Messages
pub mod Catalog
pub mod Rules
pub mod Outbound
