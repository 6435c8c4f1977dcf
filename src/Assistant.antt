-- ===== src/Assistant.antt =====
-- apps/backend/src/assistant: Slompsim, the assistant that proposes changes of states.
pub mod RateLimiter
pub mod Review
pub mod Changes
mod Tests
