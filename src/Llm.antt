-- ===== src/Llm.antt =====
-- nl2sql_service/llm: responses of language models, their usage counts, and the providers with
-- fallbacks.
pub mod Response
pub mod Usage
pub mod Fallback
pub mod Registry
pub mod Config
pub mod Factory
