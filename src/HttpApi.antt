-- ===== src/HttpApi.antt =====
-- internal/httpapi/handler.go: the web console. gin, which reads a request and writes its answer, is
-- no code of the repository: a request is its route with the texts of its parameters and the result
-- of `ShouldBindJSON`, and an answer is a status with the body's content.
pub mod Values
pub mod Reply
pub mod Forms
pub mod Guards
pub mod Accounts
pub mod Plans
pub mod Logs
pub mod Servers
pub mod Probes
pub mod Reports
pub mod Router
pub mod Effects
pub mod Grants
pub mod Handled
pub mod Sound
pub mod Isolation
pub mod Confined
pub mod Tests
