-- ===== src/Realtime/Tests.antt =====
-- The gateway over rooms in memory.
mod Sockets
