-- ===== src/Auth/Tests.antt =====
-- Sessions, guesses and accounts in memory.
mod Sessions
mod Entrance
mod Profiles
mod Leaving
