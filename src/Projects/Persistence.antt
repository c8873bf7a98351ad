-- ===== src/Projects/Persistence.antt =====
-- src/modules/projects/infrastructure/persistence/project.repository.ts: the port of the projects
-- module over the tables of prisma/schema.prisma.
pub mod Rows
pub mod Calls
mod Keys
mod MemberLaws
mod ProjectLaws
mod OtherLaws
pub mod Laws
