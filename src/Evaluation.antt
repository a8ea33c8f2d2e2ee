-- ===== src/Evaluation.antt =====
-- nl2sql_service/evaluation: the classification of failed benchmark runs.
pub mod Failures
