-- ===== src/Agent.antt =====
-- nl2sql_service/agent: the ReAct agent that plans the retrieval of schema context and the
-- generation and validation of SQL.
pub mod Actions
pub mod Names
pub mod State
pub mod Planner
pub mod Guard
pub mod Confidence
pub mod Focus
pub mod Parser
pub mod Services
pub mod Reasoning
pub mod Mentions
pub mod Columns
pub mod Execute
pub mod Clarify
pub mod Loop
