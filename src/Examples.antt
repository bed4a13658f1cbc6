-- ===== src/Examples.antt =====
-- The theorems applied at concrete inputs, and tests of the definitions.
mod Queues
mod Channels
mod Stores
mod Clients
mod Watchers
mod Crawls
mod Triages
mod Sessions
mod Loaders
mod Scans
mod Intruders
mod Urls
