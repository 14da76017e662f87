-- ===== src/Proxy.antt =====
-- internal/proxy: from the request line to the canonical request. Uri reads the forms of the request
-- line, Mirror the routes of mirror mode, Classify says what is metadata, Request puts them together;
-- Setup is New; LeafCache keeps the certificates of intercepted hosts.
pub mod Uri
pub mod Mirror
pub mod Classify
pub mod Request
pub mod Setup
pub mod LeafCache
mod Tests
