-- ===== src/Tests/CliRuns.antt =====
-- Arguments of a comment.
use my_pr_agent.Prelude.{
  ◌≡◌, ◌⊎◌, refl, true, false, not, List, [], ◌∷◌, any_of, contains, nat_eq, list_eq,
}
use my_pr_agent.Text.{Text, codes, starts_with, has_part, lower}
use my_pr_agent.CliArgs.{validate_user_args, forbidden_cli_args}
use my_pr_agent.CliArgs.Refusal.{is_forbidden, validate_user_args-refuses}

abbrev args : List Text
args = codes "--pr_reviewer.num=3" ∷ codes "--OPENAI__KEY=x" ∷ []

refusal : validate_user_args args ≡ (false, codes "openai.key")
unfolding validate_user_args starts_with has_part lower
refusal = refl

validate_user_args-refuses_example :
    ((validate_user_args args).0 ≡ not (any_of is_forbidden args))
    × (((validate_user_args args).0 ≡ true)
        ⊎ (contains forbidden_cli_args (validate_user_args args).1 ≡ true))
validate_user_args-refuses_example = validate_user_args-refuses args
