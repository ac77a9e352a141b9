-- ===== src/Examples.antt =====
-- Runs on concrete objects: the theorems applied where their conditions hold.
mod Data
mod Stores
mod Machines
mod Webhooks
mod Migrations
mod ReplicaSets
mod Controllers
