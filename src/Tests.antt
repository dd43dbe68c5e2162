-- ===== src/Tests.antt =====
-- Small inputs, and the theorems at them.
mod Data
mod Domain
mod Gates
mod Stores
mod Routes
mod Client
mod Patches
mod Memory
mod Planning
mod Chat
mod Auth
mod Knowledge
