-- ===== src/Agent/Loop.antt =====
-- `run` of nl2sql_service/agent/react_executor.py: the loop of planning iterations. Its children are
-- the choice of an action, the action itself with what follows from it, and what the loop promises.
-- Traces and the recording of outcomes, which nothing here reads, are left out.
pub mod Choice
pub mod Answers
pub mod Turn
pub mod Outcome
pub mod First
pub mod Contract
pub mod Steps
pub mod Ends
pub mod Responses
use nl2sqlcopy.Prelude.{
  ℕ, zero, suc, ◌+◌, Bool, not, Option, none, some, List, [], ◌∷◌, eqb, if◌then◌else◌,
}
use nl2sqlcopy.Floats.{Floats, fmax, ratio}
use nl2sqlcopy.Text.{Text}
use nl2sqlcopy.Agent.Actions.{give_up, retrieve_schema_for_tables}
use nl2sqlcopy.Agent.State.{State, Settings}
use nl2sqlcopy.Agent.Mentions.{should_check_past_corrections}
use nl2sqlcopy.Agent.Services.{Services}
use nl2sqlcopy.Agent.Execute.{Arrival, execute_action}
use nl2sqlcopy.Agent.Loop.Choice.{Loop}
use nl2sqlcopy.Agent.Loop.Answers.{Response}
use nl2sqlcopy.Agent.Loop.Turn.{Next, returns, continues, turn}

module _ (f : Floats) where
  open f use {Float, of_ℕ, add}

  -- `top_k or settings.top_k`
  abbrev pub top_k_or : Option ℕ → Settings f → ℕ
  top_k_or none settings = settings.top_k
  top_k_or (some k) settings = if eqb k 0 then settings.top_k else k

  -- The deadline of a run that starts at a time.
  abbrev pub deadline_of : Settings f → Float → Float
  deadline_of settings now =
      add now (fmax f (ratio f 1 1000) (of_ℕ settings.sql_generation_timeout))

  unfoldable pub initial_state : Settings f → Option ℕ → Text → Float → State f
  initial_state settings top_k search_query now = record {
    context = [];
    tables_in_scope = [];
    matched_groups = [];
    allowed_columns = [];
    current_sql = none;
    last_validation_errors = [];
    sql_generation_count = 0;
    tables_used = [];
    top_k = top_k_or top_k settings;
    search_query = search_query;
    actions_taken = [];
    retrieved_tables = [];
    retrieved_schema = [];
    past_corrections = [];
    past_corrections_checked = not (should_check_past_corrections f search_query settings);
    learned_instructions = [];
    sample_queries = [];
    join_paths = [];
    context_confidence_score = f.zero;
    columns_refreshed_tables = [];
    generation_tables_in_scope = [];
    query_embedding = none;
    focus_tables = [];
    deadline_monotonic = deadline_of settings now;
  }

  -- The variables of `run` before its loop, after the first retrieval of schema.
  unfoldable pub bootstrap : Services f → Settings f → Option ℕ → Text → Text → Loop f
  unfolding initial_state
  bootstrap sv settings top_k query search_query =
      let start = initial_state settings top_k search_query sv.started in
      let (s, observation, warnings) =
        execute_action f sv settings retrieve_schema_for_tables search_query query start in
      record {
        state = s;
        steps = [];
        all_warnings = warnings;
        current_error = [];
        last_completed_action = give_up;
        planner_iterations = 0;
        iteration = 0;
      }

  -- On to the head of the loop, or out.
  abbrev pub resume : (Loop f → Option Response) → Next f → Option Response
  resume head (returns response) = some response
  resume head (continues l) = head l

  module _ (world : ℕ → Services f) (settings : Settings f) (arrival : Arrival)
      (query search_query : Text) where
    -- The `while` loop: the fuel is the number of times that it may come to its head.
    unfoldable pub run_loop : ℕ → Loop f → Option Response
    run_loop zero l = none
    run_loop (suc fuel) l =
        resume (run_loop fuel)
          (turn f (world (l.iteration + 1)) settings arrival query search_query l)

  unfoldable pub run :
      (ℕ → Services f)
      → Settings f
      → Arrival
      → (Text → Text)
      → Text
      → Option ℕ
      → ℕ
      → Option Response
  unfolding bootstrap run_loop
  run world settings arrival rewrite_search_query query top_k fuel =
      let search_query = rewrite_search_query query in
      run_loop world settings arrival query search_query fuel
        (bootstrap (world 0) settings top_k query search_query)
