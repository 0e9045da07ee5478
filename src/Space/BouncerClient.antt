-- ===== src/Space/BouncerClient.antt =====
-- core/space/bouncer_client.go: the client of one connection. `Receive` has what goes to the connection,
-- `Kick` the watch for kicks, `Publish` what the client tells the others, `Commands` its commands.
pub mod Receive
pub mod Kick
pub mod Publish
pub mod Commands
pub mod Client
