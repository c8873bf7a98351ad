-- ===== src/Projects.antt =====
-- src/modules/projects: membership, invitations and settings of projects.
pub mod Role
pub mod Permissions
pub mod Entities
pub mod Repository
pub mod Persistence
pub mod World
pub mod Members
pub mod Invitations
pub mod Settings
pub mod Ownership
pub mod History
pub mod Race
pub mod Authority
pub mod Acceptance
mod Tests
