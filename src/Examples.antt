-- ===== src/Examples.antt =====
-- The theorems applied to concrete inputs.
mod Session
mod Records
mod Server
mod Trees
mod Queries
mod Runs
