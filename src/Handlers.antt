-- ===== src/Handlers.antt =====
-- internal/handlers: what each endpoint does.
pub mod Submissions
pub mod Lookups
