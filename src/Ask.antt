-- ===== src/Ask.antt =====
-- frontend/src/components/ask: the questions that are asked of the library and of one document, and
-- the citations in the answers.
pub mod Conversation
pub mod Chat
pub mod Citations
