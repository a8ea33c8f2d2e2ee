-- ===== src/Generation.antt =====
-- nl2sql_service/generation/sql_generator.py: the checks of generated SQL and what it suggests instead.
pub mod Tokens
pub mod Safety
pub mod Tables
pub mod Extract
pub mod Wording
pub mod Deterministic
pub mod Suggestions
pub mod Aliases
pub mod References
pub mod ColumnScope
pub mod Review
pub mod Preflight
pub mod Candidate
pub mod Service
pub mod Filters
