-- ===== src/Frame.antt =====
-- comm-func.h and net-handler.h: messages cut out of the receive stream.
pub mod Parse
pub mod Receive
