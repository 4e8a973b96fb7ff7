-- ===== src/Wire.antt =====
-- net-memory-io-base.h and ms_endian.h: how values are written to and read from buffers.
pub mod Bits
pub mod Endian
pub mod Reader
pub mod Writer
pub mod Lists
pub mod ListTrips
pub mod Sets
pub mod RoundTrip
pub mod Containers
pub mod Maps
pub mod Bounds
pub mod Network
