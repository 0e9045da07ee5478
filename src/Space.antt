-- ===== src/Space.antt =====
-- core/space: what the space does with the operations of the cache. `KickGate` holds the active
-- kicks, `Mixer` the nodes with the state that the mix is made from, `Encoder` one node's share of it.
pub mod KickGate
pub mod Libraries
pub mod Encoder
pub mod Mixer
pub mod Pending
pub mod BouncerClient
