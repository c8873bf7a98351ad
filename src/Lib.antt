-- ===== src/Lib.antt =====
-- The backend of CollabAI, a NestJS server for shared projects: users sign in, form projects with
-- roles, and work on the tasks of a project. Controllers pass validated requests as commands to
-- handlers; a handler asks permission rules, reads and writes through repositories (Prisma over
-- PostgreSQL), and emits events.
--
-- The parts and their files:
-- * Projects (src/modules/projects). Role is `ProjectRoles` and `ProjectDomainService`; Entities the
--   entities; Repository the port `IProjectRepository`, with the laws that handlers rely on;
--   Persistence `class ProjectRepository`, each method a function on tables; World what a handler
--   works on; Members, Invitations and Settings the handlers and the listener for verified e-mail
--   addresses. The proofs stand in Permissions, Ownership, History, Race, Authority, Acceptance and
--   Persistence/Laws.
-- * Auth (src/modules/auth). Tokens is the entity, the repository and the handler that renew a session;
--   Users and Codes are accounts, their port and the handlers of registration, verification, password
--   reset and profile; Store is `class UserRepository` with its cache; Lockout is
--   `AccountLockoutService`, and Login its handler; Logout is signing out, with the revoked tokens and
--   the guard of requests (src/common/guards/jwt-auth.guard.ts). The proofs stand in Rotation,
--   BruteForce, SignIn, Accounts, Profiles and Revocation.
-- * Tasks (src/modules/tasks). Entities, Access (`TaskAccessService`) and Ports (the repository);
--   Edit and Create are the handlers of commands. The proofs stand in Completion, Guarded and
--   Assignment. The role of a user comes from the projects module: it is an argument.
--   Store is `class TaskRepository`, an implementation of that port over tables.
-- * Boards (src/modules/boards). Entities has the entity and `class BoardRepository`, Commands the
--   handlers; the proof stands in Guarded.
-- * Comments (src/modules/comments). Entities, Access (`CommentAccessService`), Store
--   (`class CommentRepository`) and Handlers; the proofs stand in Guarded and Replay.
-- * Documents (src/modules/documents). Entities, Extraction (how attachments fill a document) and
--   Handlers; the proofs stand in Versions.
-- * Notifications (src/modules/notifications). Entities has the entity and its repository, Handlers the
--   handlers and the listener of events; the proofs stand in Pages.
-- * Ai (src/modules/ai). Plans is the handler that applies a plan of a language model; the proof stands
--   in Confined.
-- * Realtime (src/modules/realtime/events.gateway.ts). Rooms is what the gateway needs of socket.io;
--   State the data of sockets and the presence of projects, with `broadcastPresence`; Connection the
--   handlers of connections and messages; Events the listeners of domain events. Membership, Presence
--   and History have the steps of the gateway and what holds after any of them, and Lapses the cases
--   that it does not handle.
-- * Sync (src/modules/sync). Delta is the handler that answers what changed since a time; Timeline the
--   writes of tasks that may lie between two answers; Replica a client that takes answers over, and
--   Subtasks the changes that no answer tells of.
-- * Common/Uuid is src/common/utils/uuid.util.ts, and `uuid`, what a column of the type uuid holds.
-- * Prisma is the database client as the repositories use it, an interface of tables with documented
--   behaviour: a unique index holds, a refused write changes nothing. Prisma/Memory is one such
--   client, which the tests run on.
-- * Prelude has the helpers: tests, lists, and the monad of handlers.
--
-- A handler is a function from a state to a result and a state. An error keeps what was written before
-- it, as in the program, where only the transactions of a repository are undone. `throw` is the
-- result `err`. What is drawn from outside (the clock, `uuidv4()`, tokens) is an argument. Times are
-- milliseconds, as natural numbers. JavaScript's `trim` and `toLowerCase` are the argument `text`,
-- without assumptions. Loops run over lists, so no fuel is needed. Each command runs to its end before
-- the next; Projects/Race and Realtime/Lapses alone look at two that overlap.
--
-- An identifier may come in upper case. The uuid columns of PostgreSQL pass over the case of letters and
-- give lower case back, and so do the repositories of Projects, Tasks, Boards, Documents and
-- Notifications here, while a `===` of a handler compares the texts. In Auth, Comments, Sync, Ai and
-- Realtime an identifier is taken to be spelled as the database spells it.
--
-- Not modelled: controllers, validation of requests, the other guards, the HTTP layer and the start of the
-- server; the cache of sessions in Redis, which nothing reads; the strength of passwords, bcrypt, the
-- signing of tokens and the generator of codes; e-mail and the message queue,
-- beyond the mails and events that a handler hands over; the modules activity and users; web push; language
-- models, and what asks them; the queries that are shaped for the front end, but for those of Sync,
-- Comments, Documents and Notifications.
pub mod Ai
pub mod Auth
pub mod Boards
pub mod Comments
pub mod Common
pub mod Documents
pub mod Notifications
pub mod Prelude
pub mod Prisma
pub mod Projects
pub mod Realtime
pub mod Sync
pub mod Tasks
