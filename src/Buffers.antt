-- ===== src/Buffers.antt =====
-- core/buffers: the audio buffers between the network and the fixed-rate mixer.
pub mod Copy
pub mod Jitter
pub mod Circular
