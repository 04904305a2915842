-- ===== src/Patch.antt =====
-- pr_agent/algo/git_patch_processing.py and types.py: unified diffs as the tools show them to a
-- model. The functions stand in the modules below.
pub mod Header
pub mod Deletions
pub mod Numbered
pub mod Selection
pub mod Extent
pub mod Position
pub mod Context
use my_pr_agent.Prelude.{ℕ, Bool, true, false, Option}
use my_pr_agent.Text.{Text}

pub data EditType : Type 0 where
  added deleted modified renamed unknown : EditType

abbrev pub is_deleted : EditType → Bool
is_deleted deleted = true
is_deleted _ = false

abbrev pub is_unknown : EditType → Bool
is_unknown unknown = true
is_unknown _ = false

-- `none` stands for -1 in the counts and for `None` elsewhere. An empty text is false in Python's
-- tests, as `None` is.
pub record FilePatchInfo : Type 0 where
  pub base_file : Text
  pub head_file : Text
  pub patch : Text
  pub filename : Text
  pub tokens : Option ℕ
  pub edit_type : EditType
  pub old_filename : Option Text
  pub num_plus_lines : Option ℕ
  pub num_minus_lines : Option ℕ
  pub language : Option Text
  pub ai_file_summary : Option Text
