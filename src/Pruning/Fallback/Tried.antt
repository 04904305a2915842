-- ===== src/Pruning/Fallback/Tried.antt =====
-- Which models are tried, and with which deployments.
use my_pr_agent.Prelude.{
  suc, ◌≤◌, ◌≡◌, refl, ap, inl, inr, Option-cases, List, [], ◌∷◌, ◌++◌, Option, none, some, map,
  length, arith, All,
}
use my_pr_agent.Text.{Text}
use my_pr_agent.Pruning.Fallback.{
  ModelType, ModelSettings, repeat, get_all_models, get_all_deployments, attempt,
  retry_with_fallback_models,
}

abbrev pub Pairs : Type 0
Pairs = List (Text × Option Text)

abbrev pub model_of : Text × Option Text → Text
model_of (model, deployment) = model

abbrev pub deployment_of : Text × Option Text → Option Text
deployment_of (model, deployment) = deployment

-- A front part of the deployments, one for each model.
pub record Paired (models : List Text) (deployments : List (Option Text)) (pairs : Pairs)
    : Type 0 where
  pub left_over : List (Option Text)
  pub all_models : map model_of pairs ≡ models
  pub in_order : deployments ≡ map deployment_of pairs ++ left_over

-- `zip`
abbrev pub zipped : List Text → List (Option Text) → Pairs
zipped [] deployments = []
zipped (model ∷ models) [] = []
zipped (model ∷ models) (deployment ∷ deployments) = (model, deployment) ∷ zipped models deployments

zipped-Paired :
    (models : List Text) (deployments : List (Option Text))
    → length models ≤ length deployments
    → Paired models deployments (zipped models deployments)
zipped-Paired [] deployments enough = record {
  left_over = deployments;
  all_models = refl;
  in_order = refl;
}
zipped-Paired (model ∷ models) [] enough = ground (arith, enough)
zipped-Paired (model ∷ models) (deployment ∷ deployments) enough =
    let p = zipped-Paired models deployments (ground (arith, enough)) in
    record {
      left_over = p.left_over;
      all_models = ap (λ t. model ∷ t) p.all_models;
      in_order = ap (λ t. deployment ∷ t) p.in_order;
    }

length-repeat : (d : Option Text) (models : List Text) → length (repeat d models) ≡ length models
length-repeat d [] = refl
length-repeat d (m ∷ models) = ap suc (length-repeat d models)

enough_deployments :
    (settings : ModelSettings) (models : List Text) (deployments : List (Option Text))
    → get_all_deployments settings models ≡ some deployments
    → length models ≤ length deployments
unfolding get_all_deployments
enough_deployments settings models deployments found =
    ground (arith, found, length-repeat settings.deployment_id models)

module _ {ℓ} {A : Type ℓ} (f : Text → Option Text → Option A) where
  abbrev pub Fails : Text × Option Text → Type ℓ
  Fails (model, deployment) = f model deployment ≡ none

  -- The first pair that does not fail has given the result, and its deployment is the one that is
  -- set afterwards.
  pub record FirstWorks (pairs : Pairs) (a : A) (current : Option Text) : Type ℓ where
    pub before : Pairs
    pub model : Text
    pub behind : Pairs
    pub parts : pairs ≡ before ++ (model, current) ∷ behind
    pub failed : All Fails before
    pub works : f model current ≡ some a

  abbrev pub Outcome : Pairs → Option A → Option Text → Type ℓ
  Outcome pairs none current = All Fails pairs
  Outcome pairs (some a) current = FirstWorks pairs a current

  failed_first :
      (pair : Text × Option Text) (pairs : Pairs) (result : Option A) (current : Option Text)
      → Fails pair
      → Outcome pairs result current
      → Outcome (pair ∷ pairs) result current
  failed_first pair pairs none current fails h = (fails, h)
  failed_first pair pairs (some a) current fails h = record {
    before = pair ∷ h.before;
    model = h.model;
    behind = h.behind;
    parts = ap (λ t. pair ∷ t) h.parts;
    failed = (fails, h.failed);
    works = h.works;
  }

  attempt-Outcome :
      (models : List Text) (deployments : List (Option Text)) (current : Option Text)
      → Outcome
          (zipped models deployments)
          (attempt f models deployments current).0
          (attempt f models deployments current).1
  unfolding attempt
  attempt-Outcome [] deployments current = tt
  attempt-Outcome (model ∷ models) [] current = tt
  attempt-Outcome (model ∷ models) (deployment ∷ deployments) current =
      elim (Option-cases (f model deployment)) [
        | inl failed ↦
            rw (failed, attempt)
              (failed_first (model, deployment) (zipped models deployments)
                (attempt f models deployments deployment).0
                (attempt f models deployments deployment).1 failed
                (attempt-Outcome models deployments deployment))
        | inr (a, works) ↦
            rw (works, attempt)
              (record {
                before = [];
                model = model;
                behind = zipped models deployments;
                parts = refl;
                failed = tt;
                works = works;
              })
      ]

  -- Where there is a deployment for each model: the models are tried in their order, the preferred
  -- one first, each with the deployment at its place. The result is that of the first that does not
  -- fail, whose deployment is left in the settings; there is none only if all fail.
  pub retry-tries :
      (model_type : ModelType) (settings : ModelSettings) (deployments : List (Option Text))
      → get_all_deployments settings (get_all_models settings model_type) ≡ some deployments
      → Paired
          (get_all_models settings model_type)
          deployments
          (zipped (get_all_models settings model_type) deployments)
        × Outcome
            (zipped (get_all_models settings model_type) deployments)
            (retry_with_fallback_models f model_type settings).0
            (retry_with_fallback_models f model_type settings).1.deployment_id
  unfolding retry_with_fallback_models
  retry-tries model_type settings deployments found =
      let models = get_all_models settings model_type in
      (
        zipped-Paired models deployments (enough_deployments settings models deployments found),
        rw (found, retry_with_fallback_models)
            (attempt-Outcome models deployments settings.deployment_id),
      )
