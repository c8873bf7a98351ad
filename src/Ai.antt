-- ===== src/Ai.antt =====
-- src/modules/ai: the application of a plan that a language model has made.
pub mod Plans
pub mod Confined
mod Tests
