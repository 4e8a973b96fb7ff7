-- ===== src/Packet/Bodies.antt =====
-- net-packet.h: bodies of packets besides those of the handshake: of words and texts, and those
-- with the arrays of accounts and of names of devices.
pub mod Text
pub mod Settings
pub mod Rails
pub mod Pictures
pub mod Presets
pub mod Frames
pub mod Accounts
pub mod Digests
pub mod Play
pub mod Analyses
pub mod Alarms
pub mod Cruises
pub mod Listed
pub mod Secrets
pub mod Swaps
pub mod Names
pub mod Temperatures
pub mod Devices
pub mod Infos
pub mod Live
pub mod Received
