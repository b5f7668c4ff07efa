-- ===== src/Tests.antt =====
-- Runs of the models on small data, and instances of the theorems.
mod Data
mod Articles
mod Settings
mod Logs
mod Tiers
mod Trim
mod Sidecar
mod Outside
mod Queries
mod Embedded
mod Feeds
mod Http
mod HttpFeeds
mod HttpSettings
mod LogReads
mod Snapshots
