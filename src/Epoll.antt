-- ===== src/Epoll.antt =====
-- ms-epoll.h and ms-epoll.cpp: the class MsEpoll. `Defs` serves the links, `Worker` and
-- `Start` use them.
pub mod Defs
pub mod Worker
pub mod Start
pub mod System
