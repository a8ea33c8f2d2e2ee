-- ===== src/Llm/Fallback/Laws.antt =====
-- What a provider with fallbacks promises.
use nl2sqlcopy.Prelude.{
  ℕ, ◌+◌, ◌≡◌, refl, ◌⊎◌, inl, inr, Bool, true, false, Option, none, some, List, [], ◌∷◌, arith,
  any, length, length-append_one, Bool-cases, if◌then◌else◌,
}
use nl2sqlcopy.Floats.{Floats}
use nl2sqlcopy.Text.{Text, nonempty}
use nl2sqlcopy.Llm.Response.{LlmResponse}
use nl2sqlcopy.Llm.Usage.{record_llm_response}
use nl2sqlcopy.Llm.Usage.Totals.{Calls, record_all}
use nl2sqlcopy.Llm.Fallback.{
  Provider, GenerateInput, Effects, attempt, tries, generate, embeddings_from, embeddings,
}

⊎-cases : {A B : Type 0} (x : A ⊎ B) → ((a : A) × (x ≡ inl a)) ⊎ ((b : B) × (x ≡ inr b))
⊎-cases (inl a) = inl (a, refl)
⊎-cases (inr b) = inr (b, refl)

-- Whether a call returned, and did not raise.
abbrev pub returned : {E A : Type 0} → E ⊎ A → Bool
returned (inl error) = false
returned (inr a) = true

module _ (f : Floats) (E B : Type 0) where
  tries_nil :
      (role : Text) (input : GenerateInput f) (index : ℕ) (last : Option (LlmResponse f))
      (effects : Effects f)
      → tries f {E = E} {B = B} role input [] index last effects ≡ (last, effects)
  unfolding tries
  tries_nil role input index last effects = refl

module _ (f : Floats) {E B : Type 0} where
  open f use {Float}

  abbrev pub answers : GenerateInput f → Provider f E B → Bool
  answers input p = nonempty (p.generate input).text

  -- The providers up to the first that answers with text, and with it.
  abbrev pub tried : GenerateInput f → List (Provider f E B) → List (Provider f E B)
  tried input [] = []
  tried input (p ∷ providers) =
      let rest = tried input providers in if answers input p then p ∷ [] else p ∷ rest

  -- What the last of them answers; `default` where there is none.
  abbrev pub last_answer :
      GenerateInput f → Option (LlmResponse f) → List (Provider f E B) → Option (LlmResponse f)
  last_answer input default [] = default
  last_answer input default (p ∷ providers) = last_answer input (some (p.generate input)) providers

  abbrev pub calls_of : Text → GenerateInput f → List (Provider f E B) → Calls f
  calls_of role input [] = []
  calls_of role input (p ∷ providers) = (role, p.generate input) ∷ calls_of role input providers

  attempt-observes :
      (role : Text) (input : GenerateInput f) (p : Provider f E B) (index : ℕ) (effects : Effects f)
      → length (attempt f role input p index effects).1.observed ≡ length effects.observed + 1
  unfolding attempt
  attempt-observes role input p index effects = length-append_one effects.observed _

  attempt-metrics :
      (role : Text) (input : GenerateInput f) (p : Provider f E B) (index : ℕ) (effects : Effects f)
      → (attempt f role input p index effects).1.metrics
        ≡ record_llm_response f role (p.generate input) effects.metrics
  unfolding attempt
  attempt-metrics role input p index effects = refl

  tries_step :
      (role : Text) (input : GenerateInput f) (p : Provider f E B)
      (providers : List (Provider f E B)) (index : ℕ) (last : Option (LlmResponse f))
      (effects : Effects f)
      → let after = (attempt f role input p index effects).1 in
        tries f role input (p ∷ providers) index last effects ≡ (
          if answers input p
          then (some (p.generate input), after)
          else tries f role input providers (index + 1) (some (p.generate input)) after)
  unfolding tries
  tries_step role input p providers index last effects = refl

  Tried :
      Text
      → GenerateInput f
      → List (Provider f E B)
      → Option (LlmResponse f)
      → Effects f
      → Option (LlmResponse f) × Effects f
      → Type 0
  Tried role input providers last effects r =
      (r.0 ≡ last_answer input last (tried input providers))
      × (r.1.metrics ≡ record_all f effects.metrics (calls_of role input (tried input providers)))
      × (length r.1.observed ≡ length effects.observed + length (tried input providers))

  tries-Tried :
      (role : Text) (input : GenerateInput f) (providers : List (Provider f E B)) (index : ℕ)
      (last : Option (LlmResponse f)) (effects : Effects f)
      → Tried role input providers last effects (tries f role input providers index last effects)
  unfolding record_all Tried
  tries-Tried role input [] index last effects =
      rw (tries_nil f E B role input index last effects) (refl, refl, omega arith)
  tries-Tried role input (p ∷ providers) index last effects =
      let after = (attempt f role input p index effects).1 in
      let (answer, metrics, observed) =
        tries-Tried role input providers (index + 1) (some (p.generate input)) after in
      let seen = attempt-observes role input p index effects in
      let counted_it = attempt-metrics role input p index effects in
      elim (Bool-cases (answers input p)) [
        | inl with_text ↦
            rw (tries_step role input p providers index last effects, with_text)
              (refl, counted_it, seen)
        | inr without ↦
            rw (tries_step role input p providers index last effects, without)
              (answer, rw counted_it at metrics, omega (arith, observed, seen))
      ]

  answers-tried :
      (input : GenerateInput f) (p : Provider f E B) (providers : List (Provider f E B))
      (default : Option (LlmResponse f))
      → (response : LlmResponse f) × (last_answer input default (tried input (p ∷ providers))
          ≡ some response)
        × (nonempty response.text ≡ any (answers input) (p ∷ providers))
  answers-tried input p [] default = elim (Bool-cases (answers input p)) [
    | inl with_text ↦ (p.generate input, rw with_text refl, rw with_text refl)
    | inr without ↦ (p.generate input, rw without refl, rw without refl)
  ]
  answers-tried input p (q ∷ providers) default = elim (Bool-cases (answers input p)) [
    | inl with_text ↦ (p.generate input, rw with_text refl, rw with_text refl)
    | inr without ↦
        let (response, found, text) = answers-tried input q providers (some (p.generate input)) in
        (response, rw without found, rw without text)
  ]

  -- `generate` over at least one provider never raises. It calls the providers in order up to the
  -- first that answers with text, and no further, and returns what the last of these answered; so
  -- it returns text exactly where some provider answers with text. Each call is counted in the
  -- metrics and observed once.
  pub generate-tried :
      (role : Text) (p : Provider f E B) (providers : List (Provider f E B))
      (input : GenerateInput f) (effects : Effects f)
      → let r = generate f role (p ∷ providers) input effects in
        let called = tried input (p ∷ providers) in
        (response : LlmResponse f) × (r.0 ≡ some response)
        × (last_answer input none called ≡ some response)
        × (nonempty response.text ≡ any (answers input) (p ∷ providers))
        × (r.1.metrics ≡ record_all f effects.metrics (calls_of role input called))
        × (length r.1.observed ≡ length effects.observed + length called)
  unfolding generate Tried
  generate-tried role p providers input effects =
      let (answer, metrics, observed) = tries-Tried role input (p ∷ providers) 0 none effects in
      let (response, found, text) = answers-tried input p providers none in
      (response, rw (answer, found) refl, found, text, metrics, observed)

  -- Whether a provider returns vectors.
  abbrev pub embeds : List Text → Provider f E B → Bool
  embeds input p = returned (p.embeddings input)

  embeddings_from-returned :
      (input : List Text) (providers : List (Provider f E B)) (error : E)
      → returned (embeddings_from f input providers (some error)) ≡ any (embeds input) providers
  unfolding embeddings_from
  embeddings_from-returned input [] error = refl
  embeddings_from-returned input (p ∷ providers) error = elim (⊎-cases (p.embeddings input)) [
    | inl (e, raised) ↦ rw raised (embeddings_from-returned input providers e)
    | inr (v, vectors) ↦ rw vectors refl
  ]

  -- `embeddings` over at least one provider returns vectors exactly where some provider does, and
  -- raises otherwise.
  pub embeddings-returned :
      (p : Provider f E B) (providers : List (Provider f E B)) (input : List Text)
      → returned (embeddings f (p ∷ providers) input) ≡ any (embeds input) (p ∷ providers)
  unfolding embeddings
  embeddings-returned p providers input = elim (⊎-cases (p.embeddings input)) [
    | inl (e, raised) ↦ rw (raised, embeddings_from) (embeddings_from-returned input providers e)
    | inr (v, vectors) ↦ rw (vectors, embeddings_from) refl
  ]
