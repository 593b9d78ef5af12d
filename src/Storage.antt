-- ===== src/Storage.antt =====
-- The package `storage`: certificates, their identifiers, and the database over a cache and a backend.
pub mod ExpDate
pub mod Serial
pub mod Identifiers
pub mod KnownCertificates
pub mod IssuerMetadata
pub mod Backend
pub mod Database
