-- ===== src/Auth.antt =====
-- internal/auth: roles, the login throttle, sessions, local accounts and the provider chain.
pub mod Role
pub mod Throttle
pub mod Session
pub mod Local
pub mod Chain
