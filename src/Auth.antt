-- ===== src/Auth.antt =====
-- src/modules/auth: sessions, the lock-out of guessers, and signing in.
pub mod Tokens
pub mod Rotation
pub mod Users
pub mod Codes
pub mod Login
pub mod SignIn
pub mod Store
pub mod Accounts
pub mod Profiles
pub mod Lockout
pub mod BruteForce
mod Tests
pub mod Logout
pub mod Revocation
