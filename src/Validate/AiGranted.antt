-- ===== src/Validate/AiGranted.antt =====
-- After validateTelemetry, an AI provider is named only with its section, and that with its key.
use telemetry_operator.Base.{
  String, ◌≡◌, ◌≢◌, refl, ◌∙◌, ◌⊎◌, inl, inr, Option, none, some, ◌==◌, eq_iff, if_intro,
}
use telemetry_operator.Base.Predicates.{IfSome, Has, keep, nonempty}
use telemetry_operator.Kube.{Kube}
use telemetry_operator.Api.Access.{AnthropicSpec, OpenAiSpec, OpenAiCompatibleSpec, AiSpec}
use telemetry_operator.Cluster.{Server}
use telemetry_operator.Validate.Context.{Context, Step, log_err}
use telemetry_operator.Validate.Access.{
  validate_anthropic, validate_open_ai, validate_open_ai_compatible, if_present, validate_ai,
}

abbrev pub AnthropicReady : AnthropicSpec → Type 0
AnthropicReady a = (a.api_key ≢ "") × (a.api_key_secret ≡ none)

abbrev pub OpenAiReady : OpenAiSpec → Type 0
OpenAiReady a = (a.api_key ≢ "") × (a.api_key_secret ≡ none)

abbrev pub OpenAiCompatibleReady : OpenAiCompatibleSpec → Type 0
OpenAiCompatibleReady a = (a.api_key ≢ "") × (a.api_key_secret ≡ none)

-- No provider is named, or one of the three whose section has its key.
abbrev pub AiReady : AiSpec → Type 0
AiReady a =
    (a.provider ≡ "")
    ⊎ (((a.provider ≡ "anthropic") × Has AnthropicReady a.anthropic)
        ⊎ (((a.provider ≡ "openai") × Has OpenAiReady a.open_ai)
            ⊎ ((a.provider ≡ "openai_compatible")
                × Has OpenAiCompatibleReady a.open_ai_compatible)))

module _ {K : Kube} (server : Server K) (namespace : String) where
  validate_anthropic-Ready :
      (a : Option AnthropicSpec) (c : Context K)
      → IfSome AnthropicReady (validate_anthropic server namespace a c).0
  unfolding validate_anthropic
  validate_anthropic-Ready none c = tt
  validate_anthropic-Ready (some a) c = keep AnthropicReady _ _ (λ h. (nonempty _ h, refl))

  validate_open_ai-Ready :
      (a : Option OpenAiSpec) (c : Context K)
      → IfSome OpenAiReady (validate_open_ai server namespace a c).0
  unfolding validate_open_ai
  validate_open_ai-Ready none c = tt
  validate_open_ai-Ready (some a) c = keep OpenAiReady _ _ (λ h. (nonempty _ h, refl))

  validate_open_ai_compatible-Ready :
      (a : Option OpenAiCompatibleSpec) (c : Context K)
      → IfSome OpenAiCompatibleReady (validate_open_ai_compatible server namespace a c).0
  unfolding validate_open_ai_compatible
  validate_open_ai_compatible-Ready none c = tt
  validate_open_ai_compatible-Ready (some a) c =
      keep OpenAiCompatibleReady _ _ (λ h. (nonempty _ h, refl))

  if_present_cases :
      {A : Type 0} (P : A → Type 0) (p : String) (a : Option A)
      → IfSome P a
      → (if_present server namespace p a ≡ "") ⊎ ((if_present server namespace p a ≡ p) × Has P a)
  if_present_cases P p none h = inl refl
  if_present_cases P p (some a) h = inr (refl, h)

  pub validate_ai-Ready :
      (a : Option AiSpec) (c : Context K) → IfSome AiReady (validate_ai server namespace a c).0
  unfolding validate_ai log_err
  validate_ai-Ready none c = tt
  validate_ai-Ready (some a) c =
      if_intro {A = Step K (Option AiSpec)} Good (a.provider == "") _ _
        (λ unnamed. inl ((eq_iff _ _).0 unnamed))
        λ _.
          if_intro {A = Step K (Option AiSpec)} Good (a.provider == "anthropic") _ _
            (λ named.
              elim (if_present_cases AnthropicReady a.provider _
                (validate_anthropic-Ready a.anthropic c)) [
                  | inl absent ↦ inl absent
                  | inr (kept, ready) ↦ inr (inl (kept ∙ (eq_iff _ _).0 named, ready))
                ])
            λ _.
              if_intro {A = Step K (Option AiSpec)} Good (a.provider == "openai") _ _
                (λ named.
                  elim (if_present_cases OpenAiReady a.provider _
                    (validate_open_ai-Ready a.open_ai c)) [
                      | inl absent ↦ inl absent
                      | inr (kept, ready) ↦ inr (inr (inl (kept ∙ (eq_iff _ _).0 named, ready)))
                    ])
                λ _.
                  if_intro {A = Step K (Option AiSpec)} Good (a.provider == "openai_compatible") _ _
                    (λ named.
                      elim (if_present_cases OpenAiCompatibleReady a.provider _
                        (validate_open_ai_compatible-Ready a.open_ai_compatible c)) [
                          | inl absent ↦ inl absent
                          | inr (kept, ready) ↦ inr (inr (inr (kept ∙ (eq_iff _ _).0 named, ready)))
                        ])
                    (λ unknown. inl refl)
    where
      Good : Step K (Option AiSpec) → Type 0
      Good m = IfSome AiReady (m c).0
