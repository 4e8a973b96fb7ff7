-- ===== src/Udp.antt =====
-- udp-link.cpp, udp-ms-epoll.cpp and ms-epoll-udp.cpp: links over datagram sockets.
pub mod Link
pub mod Send
pub mod Order
pub mod Api
pub mod Start
