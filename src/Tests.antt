-- ===== src/Tests.antt =====
-- The components on concrete inputs: runs, and each theorem at inputs that meet its conditions.
mod Cache
mod Buffering
mod Clients
mod Control
mod Kicks
mod Unary
mod Sets
mod Mixing
mod Envelope
mod Batches
mod Departing
mod Listening
mod Publishing
mod Writing
mod Circling
