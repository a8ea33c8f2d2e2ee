-- ===== src/Observability/Context.antt =====
-- nl2sql_service/observability/context.py: the identifiers of a request. The context variables of
-- the running task are a state of two cells; `uuid4` is an argument for each of its two calls.
use nl2sqlcopy.Prelude.{◌≡◌, refl, true, Option, none, some, [], ◌∷◌}
use nl2sqlcopy.Dict
use nl2sqlcopy.Dict.{Dict}
use nl2sqlcopy.Text.{Text, codes, text_eq, nonempty, or_else, lower}

pub record ObservabilityContext : Type 0 where
  pub request_id : Text
  pub trace_id : Text
  pub correlation_id : Text
  pub session_id : Text
  pub workflow_id : Text
  pub endpoint : Text
  pub method : Text
  pub service : Text

abbrev pub default_context : ObservabilityContext
default_context = record {
  request_id = codes "-";
  trace_id = [];
  correlation_id = [];
  session_id = [];
  workflow_id = [];
  endpoint = [];
  method = [];
  service = codes "nl2sql-api";
}

-- `{key.lower(): value for key, value in headers.items()}`
unfoldable pub header_map_onto : Dict Text Text → Dict Text Text → Dict Text Text
header_map_onto lowered [] = lowered
header_map_onto lowered ((key, v) ∷ headers) =
    header_map_onto (Dict.put lowered (lower key) v) headers

-- `header_map.get(name)`, empty where there is none
unfoldable pub header : Dict Text Text → Text → Text
header headers name = elim (Dict.get headers name) [ none ↦ [] | some v ↦ v ]

unfoldable pub build_request_context :
    Dict Text Text → Text → Text → Text → Text → Text → ObservabilityContext
unfolding header_map_onto header
build_request_context headers endpoint method request_id fresh_request fresh_trace =
    let header_map = header_map_onto [] headers in
    let resolved_request_id = or_else request_id (
      or_else (header header_map (codes "x-request-id"))
        (or_else (header header_map (codes "x-correlation-id")) fresh_request)) in
    let correlation_id =
      or_else (header header_map (codes "x-correlation-id")) resolved_request_id in
    record {
      request_id = resolved_request_id;
      trace_id = or_else (header header_map (codes "x-trace-id")) fresh_trace;
      correlation_id = correlation_id;
      session_id = or_else (header header_map (codes "x-session-id")) correlation_id;
      workflow_id = or_else (header header_map (codes "x-workflow-id")) resolved_request_id;
      endpoint = endpoint;
      method = method;
      service = codes "nl2sql-api";
    }

-- `_context_var` and `_trace_recorder_var`; a token holds the value before the set.
pub record Variables (R : Type 0) : Type 0 where
  pub context : ObservabilityContext
  pub trace_recorder : Option R

module _ {R : Type 0} where
  unfoldable pub set_trace_context :
      ObservabilityContext → Variables R → ObservabilityContext × Variables R
  set_trace_context context v = (v.context, record v { context = context })

  unfoldable pub get_observability_context : Variables R → ObservabilityContext
  get_observability_context v = v.context

  -- `bind_context(**updates)`, with the updates as a function
  unfoldable pub bind_context :
      (ObservabilityContext → ObservabilityContext)
      → Variables R
      → ObservabilityContext × Variables R
  bind_context updates v = (updates v.context, record v { context = updates v.context })

  unfoldable pub clear_context : Option ObservabilityContext → Variables R → Variables R
  clear_context none v = record v { context = default_context }
  clear_context (some token) v = record v { context = token }

  unfoldable pub set_request_scope : Text → Text → Variables R → ObservabilityContext × Variables R
  unfolding bind_context
  set_request_scope endpoint method =
      bind_context (λ c. record c { endpoint = endpoint; method = method })

  unfoldable pub set_request_id : Text → Variables R → ObservabilityContext × Variables R
  unfolding bind_context
  set_request_id request_id v =
      let workflow_id = or_else v.context.workflow_id request_id in
      bind_context
        (λ c. record c { request_id = or_else request_id (codes "-"); workflow_id = workflow_id }) v

  unfoldable pub set_current_trace_recorder : Option R → Variables R → Option R × Variables R
  set_current_trace_recorder recorder v = (v.trace_recorder, record v { trace_recorder = recorder })

  unfoldable pub get_current_trace_recorder : Variables R → Option R
  get_current_trace_recorder v = v.trace_recorder

or_else-nonempty : (a b : Text) → nonempty b ≡ true → nonempty (or_else a b) ≡ true
or_else-nonempty [] b h = h
or_else-nonempty (c ∷ a) b h = refl

-- Where `uuid4` gives texts that are not empty, every request has all of its identifiers, whatever
-- headers and request id it comes with.
pub build_request_context-identified :
    (headers : Dict Text Text) (endpoint method request_id fresh_request fresh_trace : Text)
    → nonempty fresh_request ≡ true
    → nonempty fresh_trace ≡ true
    → let c = build_request_context headers endpoint method request_id fresh_request fresh_trace in
      (nonempty c.request_id ≡ true)
      × (nonempty c.trace_id ≡ true)
      × (nonempty c.correlation_id ≡ true)
      × (nonempty c.session_id ≡ true)
      × (nonempty c.workflow_id ≡ true)
unfolding build_request_context
build_request_context-identified headers endpoint method request_id fresh_request fresh_trace h k =
    let header_map = header_map_onto [] headers in
    let by_request = header header_map (codes "x-request-id") in
    let by_correlation = header header_map (codes "x-correlation-id") in
    let resolved = or_else request_id (or_else by_request (or_else by_correlation fresh_request)) in
    let correlation_id = or_else by_correlation resolved in
    let request : nonempty resolved ≡ true =
      or_else-nonempty request_id (or_else by_request (or_else by_correlation fresh_request)) (
        or_else-nonempty by_request (or_else by_correlation fresh_request)
          (or_else-nonempty by_correlation fresh_request h)) in
    let correlation = or_else-nonempty by_correlation resolved request in
    (
      request,
      or_else-nonempty (header header_map (codes "x-trace-id")) fresh_trace k,
      correlation,
      or_else-nonempty (header header_map (codes "x-session-id")) correlation_id correlation,
      or_else-nonempty (header header_map (codes "x-workflow-id")) resolved request,
    )
