-- ===== src/Examples.antt =====
-- Concrete inputs on which the theorems are applied.
mod Documents
mod Accepted
mod Routes
mod Planes
mod Pointers
mod Commands
mod Interleaved
mod Tools
mod Stores
mod Webhooks
