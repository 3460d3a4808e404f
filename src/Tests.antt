-- ===== src/Tests.antt =====
-- Runs of the code at concrete values, and the theorems at them.
mod Sample
mod Documents
mod Interaction
mod Engines
mod Sessions
mod Daemons
mod Clients
mod Records
mod Terminals
