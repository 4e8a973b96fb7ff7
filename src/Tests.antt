-- ===== src/Tests.antt =====
-- Concrete runs, and the theorems at concrete inputs.
mod Scripted
mod TcpSend
mod TcpTable
mod TcpRecv
mod Frame
mod Udp
mod Queue
mod Guard
mod Session
mod Start
mod Bodies
mod System
mod Wire
mod Singleton
