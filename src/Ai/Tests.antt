-- ===== src/Ai/Tests.antt =====
-- A plan applied to tables in memory.
mod Application
