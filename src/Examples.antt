-- ===== src/Examples.antt =====
-- Runs of the modelled code at concrete inputs, and the theorems applied there.
mod Clock
mod Jobs
mod Finality
mod Votes
mod Duties
mod Summaries
mod Imports
mod Registers
