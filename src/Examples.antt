-- ===== src/Examples.antt =====
-- Runs of the model on concrete data, and the theorems of the library applied to it.
mod Data
mod Registries
mod Soundness
mod Arrivals
mod Migrated
mod Reads
mod Hashes
mod Ownerless
mod Starts
mod Callers
mod Windows
mod Tools
mod Tokens
mod Seeds
