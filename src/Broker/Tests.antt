-- ===== src/Broker/Tests.antt =====
-- Runs of the broker package at concrete inputs: its theorems applied to them.
mod Streams
mod Cache
mod Members
mod Overdue
