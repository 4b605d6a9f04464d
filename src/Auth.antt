-- ===== src/Auth.antt =====
-- src/auth/session_auth_service.cpp and include/rcs/auth/session_auth_service.hpp: tokens and the
-- sessions in memory.
pub mod Types
pub mod Sessions
pub mod Tokens
pub mod Invariant
pub mod Login
pub mod Sweep
pub mod Steps
mod Tests
