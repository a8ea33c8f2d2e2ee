-- ===== src/Agent/Loop/Responses.antt =====
-- What a run responds.
use nl2sqlcopy.Prelude.{
  ℕ, suc, ◌+◌, ◌≡◌, ◌∙◌, refl, sym, ap, arith, not, Option, some, [], Bool-cases, inl, inr,
}
use nl2sqlcopy.Floats.{Floats}
use nl2sqlcopy.Text.{Text}
use nl2sqlcopy.Agent.Actions.{action_eq}
use nl2sqlcopy.Agent.State.{Settings}
use nl2sqlcopy.Agent.Mentions.{should_check_past_corrections}
use nl2sqlcopy.Agent.Services.{Services}
use nl2sqlcopy.Agent.Execute.{Arrival, execute_action}
use nl2sqlcopy.Agent.Execute.Schema.{schema_for_tables}
use nl2sqlcopy.Agent.Execute.Sql.{info_warnings}
use nl2sqlcopy.Agent.Loop.{run_loop, run, bootstrap, initial_state, resume}
use nl2sqlcopy.Agent.Loop.Choice.{Loop}
use nl2sqlcopy.Agent.Loop.Answers.{Response}
use nl2sqlcopy.Agent.Loop.Turn.{turn}
use nl2sqlcopy.Agent.Loop.Contract.{Contract, Going, Meets}
use nl2sqlcopy.Agent.Loop.Ends.{Next-cases}
use nl2sqlcopy.Agent.Loop.Steps.{turn-Meets}

module _ (f : Floats) (world : ℕ → Services f) (settings : Settings f) (arrival : Arrival)
    (query search_query : Text) where
  abbrev head : ℕ → Loop f → Option Response
  head = run_loop f world settings arrival query search_query

  run_loop-Contract :
      ((n : ℕ) (sql : Text) → info_warnings ((world n).validate_sql_safety sql) ≡ [])
      → (fuel : ℕ) (l : Loop f) (r : Response) → Going f world settings arrival query search_query l
      → head fuel l ≡ some r
      → Contract f world settings query r
  unfolding run_loop Meets
  run_loop-Contract serious ℕ.zero l r going e = cc e
  run_loop-Contract serious (suc fuel) l r going e =
      let sv = world (l.iteration + 1) in
      let meets =
        turn-Meets f world settings arrival query search_query serious (l.iteration + 1) l going in
      elim (Next-cases f (turn f sv settings arrival query search_query l)) [
        | inl (r', t) ↦ (let same : r' ≡ r = cc e in rw⁻¹ same (rw t at meets))
        | inr (l', t) ↦
            run_loop-Contract serious fuel l' r (rw t at meets)
              (sym (ap (resume f (head fuel)) t) ∙ e)
      ]

  bootstrap-Going :
      (top_k : Option ℕ)
      → Going f world settings arrival query search_query
          (bootstrap f (world 0) settings top_k query search_query)
  unfolding bootstrap initial_state execute_action schema_for_tables
  bootstrap-Going top_k =
      let start = initial_state f settings top_k search_query (world 0).started in
      elim (Bool-cases (not (should_check_past_corrections f search_query settings))) [
        | inl checked ↦ record { counted = omega arith; bounded = omega arith; begun = inl checked }
        | inr unchecked ↦ record {
          counted = omega arith;
          bounded = omega arith;
          begun = inr record { none_yet = refl; nothing_taken = refl; unchecked = unchecked };
        }
      ]

module _ (f : Floats) (world : ℕ → Services f) (settings : Settings f) (arrival : Arrival)
    (rewrite_search_query : Text → Text) (query : Text) (top_k : Option ℕ) where
  -- Where warnings on the safety of SQL always block, every response of a run keeps the contract:
  -- a success brings SQL that is not empty, with the tables that it uses, which in some iteration
  -- raised no warning on its safety and none that blocks on its tables, on its columns and from the
  -- database, no warning that blocks, and a count of attempts from 1 to the larger of 1 and the
  -- limit of iterations; a rejection brings a warning; a clarification is about the question and has
  -- at most three suggestions.
  pub run-Contract :
      ((n : ℕ) (sql : Text) → info_warnings ((world n).validate_sql_safety sql) ≡ [])
      → (fuel : ℕ) (r : Response)
      → run f world settings arrival rewrite_search_query query top_k fuel ≡ some r
      → Contract f world settings query r
  unfolding run
  run-Contract serious fuel r e =
      let search_query = rewrite_search_query query in
      run_loop-Contract f world settings arrival query search_query serious fuel _ r
        (bootstrap-Going f world settings arrival query search_query top_k) e
