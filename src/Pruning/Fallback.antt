-- ===== src/Pruning/Fallback.antt =====
-- `retry_with_fallback_models`, `_get_all_models` and `_get_all_deployments` of
-- pr_agent/algo/pr_processing.py, `get_model` of pr_agent/algo/utils.py.
pub mod Tried
use my_pr_agent.Prelude.{
  ℕ, Bool, true, false, not, ◌&&◌, ◌||◌, List, [], ◌∷◌, ◌++◌, Option, none, some, nat_eq, list_eq,
  ◌==◌, contains, keep, map, length, ltb, if◌then◌else◌,
}
use my_pr_agent.Text.{split_char, Text, codes, is_empty, strip}
use my_pr_agent.Settings.{Several, listed, written}

pub data ModelType : Type 0 where
  regular weak reasoning : ModelType

-- The settings that are read; an empty text is one that is not set. `deployment_id` is also written.
pub record ModelSettings : Type 0 where
  pub model : Text
  pub model_weak : Text
  pub model_reasoning : Text
  pub fallback_models : Several
  pub deployment_id : Option Text
  pub fallback_deployments : Several

unfoldable pub get_model : ModelSettings → ModelType → Text
get_model settings regular = settings.model
get_model settings weak =
    if not (is_empty settings.model_weak) then settings.model_weak else settings.model
get_model settings reasoning =
    if not (is_empty settings.model_reasoning) then settings.model_reasoning else settings.model

-- `[m.strip() for m in text.split(",")]`
unfoldable pub split_commas : Text → List Text
unfolding split_char strip
split_commas text = map strip (split_char b',' text)

-- `s.split(":", 1)[0]`
unfoldable pub before_first : ℕ → Text → Text
before_first sep [] = []
before_first sep (c ∷ s) = let rest = before_first sep s in if c == sep then [] else c ∷ rest

abbrev pub providers : List Text
providers = map codes (
    "openai" ∷ "anthropic" ∷ "azure" ∷ "gemini" ∷ "bedrock" ∷ "vertex_ai-language-models" ∷ "cohere"
    ∷ "mistral" ∷ "groq" ∷ "ollama" ∷ "huggingface" ∷ [])

unfoldable pub is_routed : Text → Bool
unfolding before_first
is_routed fm = not (is_empty fm) && (contains fm b'/' || contains providers (before_first b':' fm))

abbrev pub all_listed : Several → List Text
all_listed (listed names) = names
all_listed (written text) = split_commas text

unfoldable pub get_all_models : ModelSettings → ModelType → List Text
unfolding get_model is_routed split_commas
get_all_models settings model_type =
    get_model settings model_type ∷ keep is_routed (all_listed settings.fallback_models)

abbrev pub repeat {ℓ} : {A : Type ℓ} → A → List Text → List A
repeat a [] = []
repeat a (m ∷ models) = a ∷ repeat a models

-- An empty text is no list, and false.
abbrev pub deployments_listed : Several → List Text
deployments_listed (listed names) = names
deployments_listed (written text) = if is_empty text then [] else split_commas text

-- `none` is a `ValueError`: fewer deployments than models.
unfoldable pub get_all_deployments : ModelSettings → List Text → Option (List (Option Text))
unfolding split_commas
get_all_deployments settings all_models =
    let fallback = deployments_listed settings.fallback_deployments in
    let all_deployments = settings.deployment_id ∷ map some fallback in
    if is_empty fallback
    then some (repeat settings.deployment_id all_models)
    else if ltb (length all_deployments) (length all_models)
    then none
    else some all_deployments

module _ {ℓ} {A : Type ℓ} where
  -- The calls of `f` for a model and its deployment, which is set before; `none` is an exception.
  -- The last exception is raised again, and stands for the result if there is none.
  unfoldable pub attempt :
      (Text → Option Text → Option A)
      → List Text
      → List (Option Text)
      → Option Text
      → Option A × Option Text
  attempt f [] deployments current = (none, current)
  attempt f (model ∷ models) [] current = (none, current)
  attempt f (model ∷ models) (deployment ∷ deployments) current = elim (f model deployment) [
    | some a ↦ (some a, deployment)
    | none ↦ attempt f models deployments deployment
  ]

  -- The result and the settings after it.
  unfoldable pub retry_with_fallback_models :
      (Text → Option Text → Option A) → ModelType → ModelSettings → Option A × ModelSettings
  unfolding attempt get_all_models get_all_deployments
  retry_with_fallback_models f model_type settings =
      let all_models = get_all_models settings model_type in
      elim (get_all_deployments settings all_models) [
        | none ↦ (none, settings)
        | some all_deployments ↦
            let (result, current) = attempt f all_models all_deployments settings.deployment_id in
            (result, record settings { deployment_id = current })
      ]
