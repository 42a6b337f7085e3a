-- ===== src/Examples.antt =====
-- Concrete runs of the models.
mod Log
mod Store
mod Stores
mod Clients
mod Replay
mod Queries
mod Counters
mod Access
mod Nodes
mod Jobs
mod Channels
