-- ===== src/Tests/LanguageRuns.antt =====
-- Files of two languages, and one that is not shown.
use my_pr_agent.Dict.{get, put}
use my_pr_agent.Text.{ends_with, lower}
use my_pr_agent.Pruning.Compressed.{Language}
use my_pr_agent.Prelude.{List, ℕ, ◌≡◌, refl, true, false, none, [], ◌∷◌, nat_eq, list_eq, map}
use my_pr_agent.Dict.{Dict, get, put}
use my_pr_agent.Text.{Text, codes, ends_with, lower}
use my_pr_agent.Patch.{FilePatchInfo, EditType}
use my_pr_agent.Languages.{
  FileSettings, sort_files_by_main_languages, is_valid_file, configured_bad,
}
use my_pr_agent.Languages.Groups.{shown, sort_files-shows}

abbrev settings : FileSettings
settings = record {
  bad_default = codes "png" ∷ [];
  bad_extra = [];
  use_extra_bad_extensions = false;
  language_extension_map_org =
      (codes "Python", codes ".py" ∷ []) ∷ (codes "C", codes ".c" ∷ codes ".h" ∷ []) ∷ [];
}

abbrev file : Text → FilePatchInfo
file name = record {
  base_file = [];
  head_file = [];
  patch = [];
  filename = name;
  tokens = none;
  edit_type = EditType.modified;
  old_filename = none;
  num_plus_lines = none;
  num_minus_lines = none;
  language = none;
  ai_file_summary = none;
}

abbrev sizes : Dict Text ℕ
sizes = (codes "C", 10) ∷ (codes "python", 40) ∷ []

abbrev names : Language → Text × List Text
names g = (g.language, map (λ f. f.filename) g.files)

grouped :
    map names (
      sort_files_by_main_languages settings sizes (
        map
          (λ s. file (codes s))
          ("x.c" ∷ "y.png" ∷ "z.py" ∷ "go.sum" ∷ "README" ∷ "b.min.js" ∷ [])))
    ≡ (codes "python", codes "z.py" ∷ [])
      ∷ (codes "C", codes "x.c" ∷ [])
      ∷ (codes "Other", codes "README" ∷ [])
      ∷ []
unfolding sort_files_by_main_languages is_valid_file get put ends_with lower
grouped = refl

valid : is_valid_file settings (codes "z.py") (configured_bad settings) ≡ true
unfolding is_valid_file ends_with
valid = refl

sort_files-shows_example :
    shown (codes "z.py") (
      sort_files_by_main_languages settings sizes
        (file (codes "x.c") ∷ file (codes "z.py") ∷ file (codes "y.png") ∷ []))
    ≡ true
sort_files-shows_example =
    sort_files-shows settings sizes (file (codes "x.c") ∷ []) (file (codes "y.png") ∷ [])
      (file (codes "z.py")) valid
