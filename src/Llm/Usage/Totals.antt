-- ===== src/Llm/Usage/Totals.antt =====
-- The counts against the responses: each key has counted exactly its own.
use nl2sqlcopy.Prelude.{
  ℕ, ◌+◌, ◌≤◌, ◌≡◌, refl, ◌∙◌, List, [], ◌∷◌, arith, ◌==◌, Bool-cases, inl, inr, ==→≡,
  if◌then◌else◌,
}
use nl2sqlcopy.Dict
use nl2sqlcopy.Dict.Laws.{get-put}
use nl2sqlcopy.Floats.{Floats}
use nl2sqlcopy.Text.{Text, text_eq}
use nl2sqlcopy.Llm.Response.{LlmResponse}
use nl2sqlcopy.Llm.Usage.{
  Key, key_eq, or_zero, is_given, Metrics, UsageMetric, no_usage, metric_of, response_key, counted,
  record_llm_response,
}

module _ (f : Floats) where
  -- The responses in the order of their calls, each with its role.
  abbrev pub Calls : Type 0
  Calls = List (Text × LlmResponse f)

  unfoldable pub record_all : Metrics f → Calls → Metrics f
  record_all metrics [] = metrics
  record_all metrics ((role, r) ∷ calls) = record_all (record_llm_response f role r metrics) calls

  -- The sum of a number over the responses of a key.
  abbrev pub tally : Key → (LlmResponse f → ℕ) → Calls → ℕ
  tally k number [] = 0
  tally k number ((role, r) ∷ calls) =
      (if response_key f role r == k then number r else 0) + tally k number calls

  metric_of-put :
      (metrics : Metrics f) (key k : Key) (m : UsageMetric f)
      → metric_of f (Dict.put metrics key m) k ≡ (if key == k then m else metric_of f metrics k)
  unfolding metric_of
  metric_of-put metrics key k m = ground (arith, get-put metrics key k m)

  metric_of-record :
      (role : Text) (r : LlmResponse f) (metrics : Metrics f) (k : Key)
      → metric_of f (record_llm_response f role r metrics) k ≡ (
          if response_key f role r == k
          then counted f (metric_of f metrics k) r
          else metric_of f metrics k)
  unfolding record_llm_response
  metric_of-record role r metrics k =
      let key = response_key f role r in
      metric_of-put metrics key k (counted f (metric_of f metrics key) r)
      ∙ elim (Bool-cases (key == k)) [
        | inl same ↦ rw (same, ==→≡ key k same) refl
        | inr other ↦ rw other refl
      ]

  -- A number that each response adds to the count of its key.
  sums :
      (field : UsageMetric f → ℕ) (number : LlmResponse f → ℕ)
      → ((m : UsageMetric f) (r : LlmResponse f) → field (counted f m r) ≡ field m + number r)
      → (metrics : Metrics f) (calls : Calls) (k : Key)
      → field (metric_of f (record_all metrics calls) k)
        ≡ field (metric_of f metrics k) + tally k number calls
  unfolding record_all
  sums field number step metrics [] k = omega arith
  sums field number step metrics ((role, r) ∷ calls) k =
      let next = record_llm_response f role r metrics in
      let ih = sums field number step next calls k in
      elim (Bool-cases (response_key f role r == k)) [
        | inl same ↦
            let here : metric_of f next k ≡ counted f (metric_of f metrics k) r =
              rw (metric_of-record role r metrics k, same) refl in
            rw same (omega (arith, (rw here at ih), step (metric_of f metrics k) r))
        | inr other ↦
            let here : metric_of f next k ≡ metric_of f metrics k =
              rw (metric_of-record role r metrics k, other) refl in
            rw other (omega (arith, (rw here at ih)))
      ]

  fresh_sums :
      (field : UsageMetric f → ℕ) (number : LlmResponse f → ℕ)
      → ((m : UsageMetric f) (r : LlmResponse f) → field (counted f m r) ≡ field m + number r)
      → field (no_usage f) ≡ 0
      → (calls : Calls) (k : Key)
      → field (metric_of f (record_all [] calls) k) ≡ tally k number calls
  unfolding metric_of Dict.get
  fresh_sums field number step start calls k =
      omega (arith, sums field number step [] calls k, start)

  abbrev pub one_each : LlmResponse f → ℕ
  one_each r = 1

  abbrev pub failed : LlmResponse f → ℕ
  failed r = if is_given r.error_type then 1 else 0

  tally-le : (k : Key) (calls : Calls) → tally k failed calls ≤ tally k one_each calls
  tally-le k [] = omega arith
  tally-le k ((role, r) ∷ calls) = ground (arith, tally-le k calls)

  -- After any responses to fresh counts, a key has counted the responses of its own role, provider
  -- and model: their number, those with an error, which are no more, and the sums of their tokens,
  -- latencies and retries.
  pub record_all-totals :
      (calls : Calls) (k : Key)
      → let m = metric_of f (record_all [] calls) k in
        (m.requests ≡ tally k one_each calls)
        × (m.failures ≡ tally k failed calls)
        × (m.failures ≤ m.requests)
        × (m.prompt_tokens ≡ tally k (λ r. or_zero r.prompt_tokens) calls)
        × (m.completion_tokens ≡ tally k (λ r. or_zero r.completion_tokens) calls)
        × (m.total_tokens ≡ tally k (λ r. or_zero r.tokens_used) calls)
        × (m.total_latency_ms ≡ tally k (λ r. r.latency_ms) calls)
        × (m.retries ≡ tally k (λ r. r.retries) calls)
  unfolding counted
  record_all-totals calls k =
      let requests = fresh_sums (λ m. m.requests) one_each (λ m r. refl) refl calls k in
      let failures = fresh_sums (λ m. m.failures) failed (λ m r. ground arith) refl calls k in
      (
        requests,
        failures,
        omega (arith, requests, failures, tally-le k calls),
        fresh_sums (λ m. m.prompt_tokens) (λ r. or_zero r.prompt_tokens) (λ m r. refl) refl calls k,
        fresh_sums (λ m. m.completion_tokens) (λ r. or_zero r.completion_tokens) (λ m r. refl) refl
            calls k,
        fresh_sums (λ m. m.total_tokens) (λ r. or_zero r.tokens_used) (λ m r. refl) refl calls k,
        fresh_sums (λ m. m.total_latency_ms) (λ r. r.latency_ms) (λ m r. refl) refl calls k,
        fresh_sums (λ m. m.retries) (λ r. r.retries) (λ m r. refl) refl calls k,
      )
