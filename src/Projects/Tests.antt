-- ===== src/Projects/Tests.antt =====
-- Runs of the projects module over tables in memory, and its theorems at concrete inputs.
mod Fixture
mod Examples
mod Spelling
