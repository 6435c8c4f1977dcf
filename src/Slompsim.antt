-- ===== src/Slompsim.antt =====
-- apps/frontend/src/domain: the conversation with Slompsim in the panel.
pub mod Proposal
pub mod Conversation
mod Tests
