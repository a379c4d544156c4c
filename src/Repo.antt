-- ===== src/Repo.antt =====
-- internal/repo: the statements of each repository as actions on the tables. What a statement that
-- violates a constraint says is the driver's text.
pub mod Users
pub mod Domains
pub mod Events
pub mod Queue
pub mod Smtps
pub mod Packages
pub mod Analytics
pub mod Tests
