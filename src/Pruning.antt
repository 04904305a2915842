-- ===== src/Pruning.antt =====
-- pr_agent/algo/pr_processing.py: the diff of a pull request within the model's token budget.
pub mod Limits
pub mod Packing
pub mod Compressed
pub mod Clip
pub mod Extended
pub mod Assembly
pub mod Fallback
pub mod MultiDiffs
use my_pr_agent.Prelude.{ℕ}
use my_pr_agent.Text.{Text}

-- `TokenHandler`: the tokens of the prompt, and the tokenizer, which is a library.
pub record TokenHandler : Type 0 where
  pub prompt_tokens : ℕ
  pub count_tokens : Text → ℕ

-- OUTPUT_BUFFER_TOKENS_SOFT_THRESHOLD, OUTPUT_BUFFER_TOKENS_HARD_THRESHOLD, MAX_EXTRA_LINES
abbrev pub soft_threshold : ℕ
soft_threshold = 1500

abbrev pub hard_threshold : ℕ
hard_threshold = 1000

abbrev pub max_extra_lines : ℕ
max_extra_lines = 10
