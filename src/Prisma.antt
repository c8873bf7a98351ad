-- ===== src/Prisma.antt =====
-- The database client, @prisma/client, which is not part of the repository. One model delegate, such
-- as `prisma.projectMember`, is a record of its calls with what the repositories rely on. `clash` says
-- which rows share a unique key of the model in prisma/schema.prisma.
pub mod Memory
mod Rows
pub use Rows.*
