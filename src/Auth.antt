-- ===== src/Auth.antt =====
-- apps/backend/src/auth: lockout of failed logins, sessions of rotating refresh tokens, and login.
pub mod LoginAttempts
pub mod Sessions
pub mod Login
mod Tests
