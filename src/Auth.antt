-- ===== src/Auth.antt =====
-- Authentication: tokens, sessions and who may do what (src/auth).
pub mod Tokens
pub mod Validate
pub mod Access
pub mod Pats
pub mod Sessions
pub mod Flows
