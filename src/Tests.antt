-- ===== src/Tests.antt =====
-- The theorems at concrete inputs, and runs of the definitions.
mod Tokens
mod Channels
mod Elections
mod Texts
mod Transfers
mod Termination
mod Revocations
mod Minting
mod Handshakes
mod Hubs
mod Logs
mod Mailboxes
mod Verdicts
mod Streams
mod Pings
mod Rooms
mod Sessions
