-- ===== src/LinkType.antt =====
-- internal/const.go and dlt_generated.go: the link-layer types and `LookupLinkType`.
pub mod Values
pub mod Constants
pub mod Cases
pub mod Lookup
pub mod Generator
