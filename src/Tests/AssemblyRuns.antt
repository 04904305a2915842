-- ===== src/Tests/AssemblyRuns.antt =====
-- The whole diff of a small pull request.
use my_pr_agent.Prelude.{
  ◌+◌, ◌<◌, ◌≡◌, ◌⊎◌, refl, false, none, some, List, [], ◌∷◌, nat_eq, list_eq, length,
}
use my_pr_agent.Text.{Text, codes, newline, strip, join, starts_with, ends_with}
use my_pr_agent.Text.Lines.{splitlines}
use my_pr_agent.Text.Numbers.{print}
use my_pr_agent.Patch.{FilePatchInfo, EditType}
use my_pr_agent.Patch.Context.{extend_patch}
use my_pr_agent.Pruning.{soft_threshold}
use my_pr_agent.Pruning.Compressed.{Language}
use my_pr_agent.Pruning.Extended.{ExtendedDiff, pr_generate_extended_diff}
use my_pr_agent.Pruning.Assembly.{AssemblySettings, whole, prune_diff, get_pr_diff}
use my_pr_agent.Pruning.Assembly.Whole.{needed, get_pr_diff-whole}

abbrev settings : AssemblySettings
settings = record {
  extended = record {
    handler = record { prompt_tokens = 100; count_tokens = length };
    context = record {
      allow_dynamic_context = false;
      max_extra_lines_before_dynamic_context = 10;
      patch_extension_skip_types = [];
    };
    add_line_numbers_to_hunks = false;
    enable_ai_metadata = false;
    extra_lines_before = 1;
    extra_lines_after = 1;
  };
  max_tokens_model = 2000;
  max_ai_calls = 4;
  large_pr_handling = false;
  output_chars = λ chars tokens most. most;
  encode = length;
}

abbrev file : FilePatchInfo
file = record {
  base_file = codes "a\nb\n";
  head_file = codes "a\nb\nc\n";
  patch = codes "@@ -2,1 +2,2 @@\n b\n+c";
  filename = codes "x.py";
  tokens = none;
  edit_type = EditType.modified;
  old_filename = none;
  num_plus_lines = none;
  num_minus_lines = none;
  language = none;
  ai_file_summary = none;
}

abbrev langs : List Language
langs = record { language = codes "Python"; files = file ∷ [] } ∷ []

abbrev text : Text
text = codes "\n\n## File: 'x.py'\n\n@@ -1,2 +1,3 @@ \n a\n b\n+c\n"

abbrev shown : List Language
shown =
    record { language = codes "Python"; files = record file { tokens = some (length text) } ∷ [] }
    ∷ []

abbrev diff : ExtendedDiff
diff = record {
  patches_extended = text ∷ [];
  total_tokens = 100 + length text;
  patches_extended_tokens = length text ∷ [];
  files = record file { tokens = some (length text) } ∷ [];
}

made : pr_generate_extended_diff settings.extended langs ≡ some (diff, shown)
unfolding pr_generate_extended_diff extend_patch print splitlines strip join starts_with ends_with
made = refl

get_pr_diff-whole_example :
    ((needed settings diff + soft_threshold < 2000)
      × (get_pr_diff settings langs ≡ some (whole (join (newline ∷ []) (text ∷ [])))))
    ⊎ ((2000 < needed settings diff + soft_threshold + 1)
        × (get_pr_diff settings langs ≡ prune_diff settings shown))
get_pr_diff-whole_example = get_pr_diff-whole settings langs diff shown made
