-- ===== src/Lib.antt =====
-- Verification of the NL2SQL service: an HTTP service that answers questions on a database. A
-- question passes the rate limiter, is looked up in the caches, and is planned by a ReAct agent,
-- which retrieves schema context, has a language model write SQL and validates it; language
-- models are reached through providers with fallbacks, and all of it reports to an asynchronous
-- observability pipeline.
--
-- What models what:
-- - Core.RateLimiter: nl2sql_service/core/rate_limiter.py. `consume` is `RateLimiter.consume` (its
--   refill and its test are `refill` and `take_token`), `dispatch` is
--   `RateLimitMiddleware.dispatch`. Tokens are counted in whole multiples of 1 / `scale` of a
--   token and time in ticks, so the sums are exact; the readings of the clock are arguments, the
--   lock makes each call one step.
-- - Core.CacheKeys: nl2sql_service/core/cache_keys.py, `canonicalize_query_text`, on texts of ASCII
--   characters.
-- - Core.Cache: nl2sql_service/core/cache.py. Store holds the steps that the four classes share,
--   Embed is `EmbedCache`, Sql `SqlCache`, Semantic `SemanticSqlCache`, Ask `AskCache` and the
--   functions over all four; Vectors is `_cosine`. MD5 is an argument, times are arguments.
-- - Agent: nl2sql_service/agent and the types it takes from nl2sql_service/models.py. Actions is
--   `ReActAction` and the warnings, State the dict that the loop passes around, Names, Mentions and
--   Columns the helpers of react_executor.py on names, questions and search results, Planner the
--   choice of actions in react_planner.py and react_executor.py, Guard
--   `apply_iteration_memory_guard`, Confidence `compute_context_confidence_score`, Focus
--   `_focused_tables_for_generation`, Parser the names of actions in react_parser.py, Reasoning
--   `call_reasoning_model` with the requests that it makes, Clarify `build_clarification`. Execute is
--   `execute_action`, a child for each kind of branch, and the two retrievals of the first iteration,
--   whose writes come in one of three orders. Loop is `run`: Choice how an iteration comes to its
--   action, Turn what the action leads to, one pass of the `while` loop. What the agent calls in the
--   stores, the models, the database and the validators is Services, a record of functions, which
--   the loop is given anew for each iteration, with the readings of the clock.
-- - Generation: nl2sql_service/generation/sql_generator.py. Tokens are the trees of sqlparse, which
--   is an argument, Safety is `validate_sql_safety`, Tables `validate_tables_used`, Aliases,
--   References and ColumnScope `validate_columns_used`, Extract `extract_sql` and
--   `narrow_select_star`, Wording and Deterministic `build_deterministic_sql`, Suggestions
--   `_build_schema_derived_suggestions`, Preflight `detect_destructive_query_intent` and
--   `detect_basic_ambiguity_reason`, Review the reading of replies in `review_sql`, and
--   `_apply_review_gate`, Candidate `is_deterministic_generation_candidate`, Filters
--   `_build_deterministic_filter_clause` over decoded rules, Service `generate_sql`:
--   Cached its responses as dicts, Template its two ways to fill a template, Lookup the caches, Flow
--   the order of its steps. What it calls is Backends, with the readings of the clock at each place.
-- - Llm: nl2sql_service/llm and nl2sql_service/core/provider_registry.py. Response is `LLMResponse`,
--   Usage llm/metrics.py, Fallback `FallbackLLMProvider` of llm/factory.py, Registry the table of
--   providers, Config `resolve_role_configs`, Factory `resolve_secret` and `LLMFactory.create`. A
--   provider is an argument: what it answers to a call.
-- - Observability: nl2sql_service/observability. Pipeline is `AsyncObservabilityPipeline` of logger.py
--   as steps on a state, with the outcome of storing an event as an argument; Context is context.py,
--   with the results of `uuid4` as arguments.
-- - Evaluation: nl2sql_service/evaluation. Failures is `_select_failure_type` of analyzer.py.
-- - Dict is Python's `dict`, Text its `str` (lists of character codes, ASCII), Floats the operations
--   of floating point numbers and the order laws that hold of the numbers other than NaN: the
--   agent and the semantic caches take them as a parameter.
--
-- Two functions run on fuel: `decimal` prints a number with more fuel than digits, and the loop of
-- `run` comes to its head once for each unit; one unit more than there are iterations before its
-- deadline is enough, and no number of iterations bounds it otherwise, since retrievals are not
-- counted. What raises in Python is `none` or `inl` here: `min` of an empty store in the caches'
-- `set`, the first of no providers, an unreadable secret, a failed embedding, a token of sqlparse
-- that is no group where one is expected. An exception of a service that ends `run` is left out.
--
-- Not modelled: the routes of nl2sql_service/main.py, the databases (nl2sql_service/db, storage),
-- retrieval (nl2sql_service/rag), the calls of language models (nl2sql_service/llm/providers), the
-- rest of the evaluation, the scripts and the MCP server, which are glue over services and
-- libraries; in the agent, the search for an action in the lines of a reply, the traces and the
-- texts of prompts; in the generation of SQL, its trace events, its prompts, and EXPLAIN; the
-- rewriting of questions and the wording of answers (query_rewriter.py, answer_generator.py).
-- Equality and order of numbers leave NaN aside.
pub mod Prelude
pub mod Dict
pub mod Text
pub mod Floats
pub mod Core
pub mod Agent
pub mod Llm
pub mod Generation
pub mod Observability
pub mod Evaluation
mod Tests
