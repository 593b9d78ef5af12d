-- ===== src/Tests.antt =====
-- Runs of the model, and each theorem that has hypotheses at an input that meets them.
mod Data
mod Cache
mod Fetch
mod Storing
mod Electing
mod Parsing
mod Configuring
mod Polling
mod Threads
mod Handing
mod Statistics
mod Redis
mod Backends
mod Pipeline
