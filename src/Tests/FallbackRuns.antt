-- ===== src/Tests/FallbackRuns.antt =====
-- Two models of which the first fails, twice.
use my_pr_agent.Prelude.{
  ◌≡◌, refl, none, some, Option, List, [], ◌∷◌, nat_eq, list_eq, ◌==◌, if◌then◌else◌,
}
use my_pr_agent.Text.{Text, codes, strip}
use my_pr_agent.Settings.{listed, written}
use my_pr_agent.Pruning.Fallback.{
  regular, ModelSettings, split_commas, get_all_models, get_all_deployments,
  retry_with_fallback_models,
}
use my_pr_agent.Pruning.Fallback.Tried.{Paired, Outcome, zipped, retry-tries}

abbrev settings : ModelSettings
settings = record {
  model = codes "azure/big";
  model_weak = [];
  model_reasoning = [];
  fallback_models = written (codes "azure/small, plain");
  deployment_id = some (codes "d1");
  fallback_deployments = listed (codes "d2" ∷ []);
}

abbrev call : Text → Option Text → Option (Option Text)
call model deployment = if model == codes "azure/small" then some deployment else none

abbrev models : List Text
models = codes "azure/big" ∷ codes "azure/small" ∷ []

tried : get_all_models settings regular ≡ models
unfolding get_all_models split_commas strip
tried = refl

found :
    get_all_deployments settings (get_all_models settings regular)
    ≡ some (some (codes "d1") ∷ some (codes "d2") ∷ [])
unfolding get_all_deployments get_all_models split_commas strip
found = refl

-- The settings after the first run hold the second deployment, which the second run then takes for
-- the preferred model.
left : (retry_with_fallback_models call regular settings).1.deployment_id ≡ some (codes "d2")
unfolding retry_with_fallback_models get_all_models get_all_deployments split_commas strip
left = refl

next_deployments :
    get_all_deployments (retry_with_fallback_models call regular settings).1 models
    ≡ some (some (codes "d2") ∷ some (codes "d2") ∷ [])
unfolding retry_with_fallback_models get_all_models get_all_deployments split_commas strip
next_deployments = refl

retry-tries_example :
    Paired
      (get_all_models settings regular)
      (some (codes "d1") ∷ some (codes "d2") ∷ [])
      (zipped (get_all_models settings regular) (some (codes "d1") ∷ some (codes "d2") ∷ []))
    × Outcome call
        (zipped (get_all_models settings regular) (some (codes "d1") ∷ some (codes "d2") ∷ []))
        (retry_with_fallback_models call regular settings).0
        (retry_with_fallback_models call regular settings).1.deployment_id
retry-tries_example =
    retry-tries call regular settings (some (codes "d1") ∷ some (codes "d2") ∷ []) found
