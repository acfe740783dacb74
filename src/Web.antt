-- ===== src/Web.antt =====
-- The web console (internal/web).
pub mod Client
pub mod Console
