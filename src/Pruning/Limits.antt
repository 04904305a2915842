-- ===== src/Pruning/Limits.antt =====
-- `get_max_tokens` of pr_agent/algo/utils.py and `cap_and_log_extra_lines` of
-- pr_agent/algo/pr_processing.py.
use my_pr_agent.Prelude.{ℕ, Option, none, some, ltb, if◌then◌else◌, nat_eq, list_eq, min, ◌>>=◌}
use my_pr_agent.Text.{Text}
use my_pr_agent.Dict.{Dict, get}
use my_pr_agent.Pruning.{max_extra_lines}

unfoldable pub cap_and_log_extra_lines : ℕ → ℕ
cap_and_log_extra_lines value = if ltb max_extra_lines value then max_extra_lines else value

-- `MAX_TOKENS` and the two settings are arguments; a setting that is not positive, or not set, is
-- given as 0. `none` is the exception for an unknown model.
unfoldable pub base_max_tokens : Dict Text ℕ → ℕ → Text → Option ℕ
base_max_tokens table custom_model_max_tokens model = elim (get model table) [
  | some n ↦ some n
  | none ↦ if ltb 0 custom_model_max_tokens then some custom_model_max_tokens else none
]

unfoldable pub get_max_tokens : Dict Text ℕ → ℕ → ℕ → Text → Option ℕ
unfolding base_max_tokens
get_max_tokens table custom_model_max_tokens max_model_tokens model = do
  n ← base_max_tokens table custom_model_max_tokens model
  if ltb 0 max_model_tokens then some (min max_model_tokens n) else some n
