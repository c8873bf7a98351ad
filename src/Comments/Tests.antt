-- ===== src/Comments/Tests.antt =====
-- The handlers over tables in memory.
mod Posts
