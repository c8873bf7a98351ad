-- ===== src/Tasks/Tests.antt =====
-- Runs of the task handlers over a store in memory, and their theorems at concrete inputs.
mod Examples
