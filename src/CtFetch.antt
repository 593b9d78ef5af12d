-- ===== src/CtFetch.antt =====
-- cmd/ct-fetch/ct-fetch.go: the download of a log, and the workers that store its entries.
pub mod Filter
pub mod Bounds
pub mod Download
pub mod Worker
pub mod Polling
pub mod Health
pub mod Main
pub mod Pipeline
