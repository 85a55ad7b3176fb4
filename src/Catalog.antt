-- ===== src/Catalog.antt =====
-- src/wootpilot/catalog: the connectors that read the facts about products.
pub mod Values
pub mod Products
pub mod StoreApi
pub mod Prices
pub mod Searches
pub mod Limits
pub mod MockProducts
pub mod Mock
pub mod MockSearches
pub mod Connectors
pub mod Capabilities
