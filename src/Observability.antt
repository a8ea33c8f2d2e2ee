-- ===== src/Observability.antt =====
-- nl2sql_service/observability: the identifiers of a request, and the pipeline that logs and stores
-- events in the background.
pub mod Pipeline
pub mod Context
