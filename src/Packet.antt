-- ===== src/Packet.antt =====
-- net-packet.h: the header of packets, and the bodies of the login packets.
pub mod Bodies
pub mod Header
pub mod Login
pub mod RoundTrip
