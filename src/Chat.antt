-- ===== src/Chat.antt =====
-- The parts of src/robotsix_chat/chat.
pub mod EventBus
pub mod Conversation
pub mod Idempotency
pub mod Titles
pub mod SessionFile
pub mod Sessions
