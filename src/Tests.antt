-- ===== src/Tests.antt =====
-- Runs of the code's definitions, and the theorems at concrete data.
mod Files
mod Strategies
mod Lists
mod Searches
mod Dns
mod Updates
mod Hosts
mod Processes
mod Bundles
