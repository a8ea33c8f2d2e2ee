-- ===== src/Agent/Reasoning.antt =====
-- `call_reasoning_model` of nl2sql_service/agent/react_planner.py, with the requests that it makes,
-- and `looks_like_action_payload` of agent/react_parser.py.
use nl2sqlcopy.Prelude.{
  ◌≡◌, refl, ◌⊎◌, inl, inr, ◌≤◌, arith, Bool, true, false, not, ◌&&◌, ◌||◌, Option, none, some,
  List, [], ◌∷◌, ◌++◌, map, ◌==◌, eqb, any, length, Bool-cases, if◌then◌else◌,
}
use nl2sqlcopy.Floats.{Floats, fmax, fmin, ratio}
use nl2sqlcopy.Text.{Text, codes, text_eq, nonempty, or_else, lower, is_space, replace}
use nl2sqlcopy.Agent.Actions.{
  SqlWarning, ollama_timeout, ollama_malformed, ollama_upstream, value, is_transport_failure,
}
use nl2sqlcopy.Agent.Names.{has_part}
use nl2sqlcopy.Agent.Planner.{has_action_marker}
use nl2sqlcopy.Agent.Parser.{all_actions, upper_char}
use nl2sqlcopy.Agent.State.{Settings}
use nl2sqlcopy.Agent.Services.{Reply, Request}

-- `"action"\s*:` in any case, on a text of small letters.
abbrev quoted : Text
quoted = codes "\"action\""

abbrev colon_next : Text → Bool
colon_next [] = false
colon_next (c ∷ s) = eqb c b':' || (is_space c && colon_next s)

abbrev key_here : Text → Text → Bool
key_here [] s = colon_next s
key_here (d ∷ word) [] = false
key_here (d ∷ word) (c ∷ s) = eqb c d && key_here word s

unfoldable pub has_action_key : Text → Bool
has_action_key [] = false
has_action_key (c ∷ s) = key_here quoted (c ∷ s) || has_action_key s

unfoldable pub looks_like_action_payload : Text → Bool
unfolding has_action_key
looks_like_action_payload raw =
    has_action_key (lower raw)
    || has_action_marker false raw
    || any
        (λ action.
          has_part (replace b' ' b'_' (replace b'-' b'_' (map upper_char raw))) (value action))
        all_actions

abbrev pub text_or : Option Text → Text
text_or none = []
text_or (some s) = s

abbrev pub is_type : Text → Option Text → Bool
is_type expected none = false
is_type expected (some s) = s == expected

-- `_warnings_for_response`
unfoldable pub warnings_for_response : Text → Option Text → Option Text → List SqlWarning
warnings_for_response provider error_type error_message =
    record {
      code =
          if is_type (codes "timeout") error_type
          then ollama_timeout
          else if is_type (codes "malformed") error_type || is_type (codes "empty") error_type
          then ollama_malformed
          else ollama_upstream;
      message =
          codes "Reasoning model "
          ++ or_else (text_or error_message) (codes "returned no text from " ++ provider);
    }
    ∷ []

-- The thought and the answer of a reply: a thought that looks like an action is the answer.
unfoldable pub thought_answer : Reply → Text × Text
thought_answer reply =
    let thought = text_or reply.thought in
    if not (nonempty reply.text) && looks_like_action_payload thought
    then ([], thought)
    else (thought, reply.text)

module _ (f : Floats) where
  open f use {Float, zero, one, of_ℕ, le, sub, mul}

  -- The thought, the answer and the warnings.
  abbrev pub Outcome : Type 0
  Outcome = Text × Text × List SqlWarning

  unfoldable pub reasoning_budget : Settings f → Float → Float
  reasoning_budget settings left = fmin f settings.reasoning_timeout (fmax f zero left)

  unfoldable pub primary_timeout : Float → Float
  primary_timeout budget = if le budget one then budget else fmax f one (mul budget (ratio f 7 10))

  unfoldable pub fallback_timeout : Float → Float → Float
  fallback_timeout budget elapsed =
      fmax f zero (fmin f (fmax f zero (sub budget (primary_timeout budget))) (sub budget elapsed))

  abbrev pub first_request : Settings f → Float → Request f
  first_request settings budget = record {
    max_tokens = settings.react_reasoning_max_tokens;
    enable_thinking = true;
    timeout = primary_timeout budget;
    json = true;
  }

  abbrev second_request : Float → Request f
  second_request timeout = record {
    max_tokens = 220;
    enable_thinking = false;
    timeout = timeout;
    json = false;
  }

  -- The second request, after a timeout.
  unfoldable pub retry :
      Text → (Request f → Reply) → Float → List (Request f) → Outcome × List (Request f)
  retry provider generate timeout requests =
      let response = generate (second_request timeout) in
      let (thought, answer) = thought_answer response in
      let requests = requests ++ second_request timeout ∷ [] in
      if nonempty answer then ((thought, answer, []), requests) else (
        ([], [], warnings_for_response provider response.error_type response.error_message),
        requests,
      )

  unfoldable pub call_reasoning_model :
      Settings f → Text → (Request f → Reply) → Float → Float → Outcome × List (Request f)
  call_reasoning_model settings provider generate left elapsed =
      let budget = reasoning_budget settings left in
      let request = first_request settings budget in
      let response = generate request in
      let (thought, answer) = thought_answer response in
      let failed = warnings_for_response provider response.error_type response.error_message in
      let timeout = fallback_timeout budget elapsed in
      if le budget zero
      then (
        (
          [],
          [],
          warnings_for_response provider (some (codes "timeout"))
              (some (codes "timed out before reasoning could start")),
        ),
        [],
      )
      else if nonempty answer
      then ((thought, answer, []), request ∷ [])
      else if is_type (codes "timeout") response.error_type
      then (if le timeout zero
          then (([], [], failed), request ∷ [])
          else retry provider generate timeout (request ∷ []))
      else (([], [], failed), request ∷ [])

  -- What every failure is: one warning, which counts as a failure of the transport.
  warnings_for_response-transport :
      (provider : Text) (error_type error_message : Option Text)
      → is_transport_failure (warnings_for_response provider error_type error_message) ≡ true
  unfolding warnings_for_response is_transport_failure
  warnings_for_response-transport provider error_type error_message = ground arith

  -- An answer without warnings, or no answer and a failure of the transport.
  abbrev pub AnswersOrFails : Outcome → Type 0
  AnswersOrFails outcome =
      ((nonempty outcome.1 ≡ true) × (outcome.2 ≡ []))
      ⊎ ((outcome.1 ≡ []) × (is_transport_failure outcome.2 ≡ true))

  retry_lem :
      (provider : Text) (generate : Request f → Reply) (timeout : Float) (request : Request f)
      → (length (retry provider generate timeout (request ∷ [])).1 ≡ 2)
        × AnswersOrFails (retry provider generate timeout (request ∷ [])).0
  unfolding retry
  retry_lem provider generate timeout request =
      let response = generate (second_request timeout) in
      elim (Bool-cases (nonempty (thought_answer response).1)) [
        | inl answers ↦ rw answers (refl, inl (answers, refl))
        | inr silent ↦ rw silent (
          refl,
          inr (
            refl,
            warnings_for_response-transport provider response.error_type response.error_message,
          ),
        )
      ]

  -- The model is asked at most twice, and a second time only where the first reply reports a
  -- timeout. There is then an answer and no warning, or no answer and a failure of the transport.
  pub call_reasoning_model-outcome :
      (settings : Settings f) (provider : Text) (generate : Request f → Reply)
      (left elapsed : Float)
      → let (outcome, requests) = call_reasoning_model settings provider generate left elapsed in
        let first = generate (first_request settings (reasoning_budget settings left)) in
        ((length requests ≤ 1)
          ⊎ ((length requests ≡ 2) × (is_type (codes "timeout") first.error_type ≡ true)))
        × AnswersOrFails outcome
  unfolding call_reasoning_model
  call_reasoning_model-outcome settings provider generate left elapsed =
      let budget = reasoning_budget settings left in
      let response = generate (first_request settings budget) in
      let failed =
        warnings_for_response-transport provider response.error_type response.error_message in
      elim (Bool-cases (le budget zero)) [
        | inl late ↦
            rw late (inl (omega arith), inr (refl, warnings_for_response-transport provider _ _))
        | inr timely ↦ elim (Bool-cases (nonempty (thought_answer response).1)) [
          | inl answers ↦ rw (timely, answers) (inl (omega arith), inl (answers, refl))
          | inr silent ↦ elim (Bool-cases (is_type (codes "timeout") response.error_type)) [
            | inr other ↦ rw (timely, silent, other) (inl (omega arith), inr (refl, failed))
            | inl slow ↦ elim (Bool-cases (le (fallback_timeout budget elapsed) zero)) [
              | inl spent ↦ rw (timely, silent, slow, spent) (inl (omega arith), inr (refl, failed))
              | inr time ↦
                  rw (timely, silent, slow, time)
                    (let (twice, outcome) = retry_lem provider generate _ _ in
                      (inr (twice, refl), outcome))
            ]
          ]
        ]
      ]
