-- ===== src/Accounts.antt =====
-- Users, their tokens and sessions, and libraries: internal/domain/auth.go and library_aggregate.go,
-- and the refresh and logout handlers of internal/transport/http/auth_handlers.go.
pub mod Users
pub mod Tokens
pub mod Sessions
pub mod Libraries
