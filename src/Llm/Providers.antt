-- ===== src/Llm/Providers.antt =====
-- The package llm/providers.
pub mod Chat
pub mod Mistral
pub mod Groq
pub mod Gemini
pub mod GeminiReplies
pub mod Fake
pub mod Replies
pub mod Answers
