-- ===== src/CliArgs.antt =====
-- pr_agent/algo/cli_args.py: the arguments that a user may not set in a comment.
pub mod Refusal
use my_pr_agent.Prelude.{
  ℕ, zero, suc, Bool, true, false, not, ◌&&◌, ◌||◌, List, [], ◌∷◌, ◌++◌, map, Option, none, some,
  nat_eq, list_eq, ◌==◌, contains, if◌then◌else◌,
}
use my_pr_agent.Text.{Text, codes, is_empty, starts_with, has_part, lower}

-- The words that the source holds in base64.
abbrev pub decoded_args : List Text
decoded_args = map codes (
    "shared_secret" ∷ "user" ∷ "system" ∷ "enable_comment_approval" ∷ "enable_manual_approval"
    ∷ "enable_auto_approval" ∷ "approve_pr_on_self_review" ∷ "base_url" ∷ "url" ∷ "app_name"
    ∷ "secret_provider" ∷ "git_provider" ∷ "skip_keys" ∷ "openai.key" ∷ "ANALYTICS_FOLDER" ∷ "uri"
    ∷ "app_id" ∷ "webhook_secret" ∷ "bearer_token" ∷ "PERSONAL_ACCESS_TOKEN"
    ∷ "override_deployment_type" ∷ "private_key" ∷ "local_cache_path" ∷ "enable_local_cache"
    ∷ "jira_base_url" ∷ "api_base" ∷ "api_type" ∷ "api_version" ∷ "skip_keys" ∷ [])

-- In lower case, and with a dot in front of a word that has none.
unfoldable pub forbidden_word : Text → Text
unfolding lower
forbidden_word word = let low = lower word in if contains low b'.' then low else b'.' ∷ low

unfoldable pub forbidden_cli_args : List Text
unfolding forbidden_word
forbidden_cli_args = map forbidden_word decoded_args

-- `s.replace("__", ".")`
unfoldable pub dotted : Text → Text
dotted [] = []
dotted (c ∷ []) = c ∷ []
dotted (c ∷ d ∷ s) =
    let replaced = b'.' ∷ dotted s in
    let kept = c ∷ dotted (d ∷ s) in if c == b'_' && d == b'_' then replaced else kept

unfoldable pub first_part : List Text → Text → Option Text
unfolding has_part
first_part [] arg_word = none
first_part (word ∷ words) arg_word = elim (has_part word arg_word) [
  | true ↦ some word
  | false ↦ first_part words arg_word
]

-- The forbidden word in an argument, if it is an option.
unfoldable pub refused : Text → Option Text
unfolding first_part dotted lower forbidden_cli_args
refused arg =
    if starts_with (codes "--") arg
    then first_part forbidden_cli_args (dotted (lower arg))
    else none

-- Nothing here raises on texts.
unfoldable pub validate_user_args : List Text → Bool × Text
unfolding refused
validate_user_args [] = (true, [])
validate_user_args (arg ∷ args) = elim (refused arg) [
  | some word ↦ (false, word)
  | none ↦ validate_user_args args
]
