-- ===== src/Documents.antt =====
-- src/modules/documents: the documents of a project.
pub mod Entities
pub mod Extraction
pub mod Handlers
pub mod Versions
mod Tests
