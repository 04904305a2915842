-- ===== src/Tests/FilterRuns.antt =====
-- Files of a GitLab merge request, one of them renamed.
use my_pr_agent.Prelude.{◌≡◌, refl, some, List, [], ◌∷◌, not, keep, nat_eq, list_eq}
use my_pr_agent.Text.{Text, codes, starts_with}
use my_pr_agent.Settings.{listed, written}
use my_pr_agent.FileFilter.{Patterns, IgnoreSettings, gitlab, ChangedFile, is_kept, filter_ignored}
use my_pr_agent.FileFilter.Kept.{is_ignored_file, filter_ignored_lem}

-- A pattern matches what it begins here.
abbrev re : Patterns
re = record { translate = λ glob. glob; compile = λ pattern. some (starts_with pattern) }

abbrev settings : IgnoreSettings
settings = record {
  regex = listed (codes "gen/" ∷ []);
  glob = written (codes "[lib/]");
  ignore_language_framework = listed [];
  generated_code = [];
}

abbrev moved : Text → Text → ChangedFile
moved new old = record { filename = []; new_path = new; old_path = old }

abbrev files : List ChangedFile
files =
    moved (codes "gen/a") (codes "gen/a")
    ∷ moved (codes "src/b") (codes "lib/b")
    ∷ moved (codes "gen/c") (codes "lib/c")
    ∷ moved (codes "lib/d") (codes "lib/d")
    ∷ []

-- Both paths of the third file are ignored, but by two patterns, so that it stays.
left :
    filter_ignored re settings gitlab files
    ≡ moved (codes "src/b") (codes "lib/b") ∷ moved (codes "gen/c") (codes "lib/c") ∷ []
unfolding filter_ignored is_kept starts_with
left = refl

filter_ignored_lem_example :
    filter_ignored re settings gitlab files
    ≡ keep (λ f. not (is_ignored_file re settings gitlab f)) files
filter_ignored_lem_example = filter_ignored_lem re settings gitlab files
