-- ===== src/Tcp.antt =====
-- tcp-link.h, tcp-link.cpp and ms-epoll-tcp.cpp: the class MsTcpLink and the functions over it.
pub mod Invariant
pub mod Link
pub mod Send
pub mod Table
pub mod Output
pub mod Recv
pub mod Setup
pub mod Accept
pub mod Api
