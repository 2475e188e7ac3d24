-- ===== src/Transport.antt =====
-- client/src/transport: the packet scheduler, and the reopening of the socket.
pub mod Scheduler
pub mod Reconnect
