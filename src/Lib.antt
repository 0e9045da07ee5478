-- ===== src/Lib.antt =====
-- Panaudia, a server of spatial audio: a development of its control plane and of its playback buffer.
--
-- The parts of the program and their files. Clients connect over WebRTC, ROC or MOQ; for each there is
-- an entry in the session registry (core/sessions), which admits one session for each identity. A client
-- sends named commands; core/commands checks the roles of its ticket and makes one operation of each.
-- Operations go to the state cache (core/statecache), where the last writer of a key wins, and from it
-- to the space (core/space), whose kick gate refuses those who are kicked, and to the client of every
-- connection, whose writer (core/moq, core/panaudia_server) lets through what the client may see. Audio
-- frames pass from the network to the mixer through a jitter buffer (core/buffers).
--
-- StateCache: core/statecache. `StateCache.Store` has the `StateStore` of store.go with its calls
-- `Set`, `Tomb`, `Snapshot`, `Since` and `Compact` (`set_key`, `tomb`, `snapshot`, `since`,
-- `compact`); `Store.Spec` says what a reader makes of a list of operations, and `Store.Compaction`
-- and `Store.Writing` hold the proofs. The retry loop of `writeOp` takes fuel: two rounds are enough.
-- `StateCache.Wire` has the envelope of wire.go (`encode`, `decode`), and `StateCache.JsonOps` the
-- operations of jsonop.go, over what encoding/json reads and writes (`JsonText`). `StateCache.Opened`
-- is what every reader of an envelope begins with.
-- Buffers: core/buffers/jitter_buffer.go. `Buffers.Jitter` has the configuration, the levels and the
-- adaptive window; `Jitter.Playback` has the ring with `Write` and `Read`. A frame is one value of a
-- parameter type, with silence and the average of two frames. `Buffers.Circular` has the older ring of
-- circular_buffer.go, as a queue of bounded length (`Circular.Queue`), with its `Read`
-- (`Circular.Reading`); there a frame stands for one float.
-- Sessions: core/sessions. The registry with the heap of its entries, and `Admit` over surroundings
-- that say what is called of the registry while it waits.
-- Commands: core/commands. The catalog of commands, their registry, roles, `Dispatch`, and what a
-- key's lifetime is tied to. `UuidLib` and `JsonLib` stand for google/uuid and encoding/json.
-- Space: core/space and core/ambisonic/encoder.go. `Space.KickGate` has kick_gate.go. `Space.Mixer` has
-- the state of a `BaseSpace`: `Mutators` base_space_mutators.go, `Ops` base_space_ops.go, `Nodes` the
-- queue of changes and the tick of base_space.go and node.go. `Space.Encoder` has the control state of
-- an encoder and `shouldIncludePeer`. `Space.Libraries` stands for golang-set and Go's floats, of which
-- only the neutral 1.0 is used. `Mixer.Fresh.Runs` has the runs: changes, operations and ticks in any
-- order. The queue of changes is taken to have room.
-- Space.BouncerClient: core/space/bouncer_client.go. `Receive` has what waits for the connection's writer
-- and what reaches it, `Kick` the watch for kicks of the client, `Publish` what it tells of its node and
-- takes away, `Commands` its control messages, and `Client` the whole. The fields that one mutex guards
-- are one record. `Space.Pending` has the trimming of a queue, which the writers share.
-- Writers: core/moq/moq_data_writer.go and core/panaudia_server/data_writer.go. Both keep one view of the
-- other nodes with the filters on it (`Writers`, `Writers.Attributes`); `Writers.Moq` sends on tracks, and
-- `Writers.WebRtc` on channels that may open late (`Writers.Channels`).
-- Tracks: core/moq/tracks.go, the names of a node's tracks.
-- Direct: direct/backend.go, direct/depart.go and direct/reconciler.go. `Direct` has
-- `handleStringMessage`, which hands each operation to the cache, the space, the kick gate and the
-- clients; those calls are listed in the order in which they are made. `Direct.Departure` has
-- `DepartNode` on the registry of `Sessions`, as one step: the checks that the maps still hold what
-- was read before always succeed. `Direct.Reconciler` has `reconcilePass`, which gets what the cache
-- holds as a list of operations.
-- Base: shared helpers (association lists for Go's maps, signed integers, texts as lists of bytes).
-- Tests: runs on concrete inputs.
--
-- A public call is one step: the atomics and mutexes inside a call are taken in the order of the source,
-- and the interleaving of two calls of `writeOp` is not modelled. Counters that only grow (positions,
-- generations, segment indices) do not wrap. Durations that the code multiplies do wrap, as an int64.
--
-- Not modelled: network transports and handlers, rendering and codecs (floating-point signal
-- processing, with the weights and the reverb of the encoder), the subscriptions of a MOQ session, data
-- messages, and the deployments under directroc and unified.
pub mod Base
pub mod StateCache
pub mod Buffers
pub mod Sessions
pub mod Commands
pub mod Space
pub mod Writers
pub mod Tracks
pub mod Direct
pub mod Tests
