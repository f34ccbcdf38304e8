-- ===== src/Tests.antt =====
-- The theorems at concrete inputs, and tests of the definitions.
mod Filters
mod Traces
mod Parts
mod Sessions
mod Services
mod Explorer
mod Merging
mod Explorers
mod Cloning
mod Assistant
mod Deploys
mod Monitors
mod Resources
