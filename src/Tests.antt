-- ===== src/Tests.antt =====
-- Concrete inputs on which the theorems apply, and runs of the modelled code.
mod Data
mod Stacks
mod Handlers
mod Memories
mod Jumps
mod Storage
mod Encodings
mod Paths
mod Databases
mod Journals
mod Caches
mod Programs
mod Calls
mod Transfers
