-- ===== src/FileFilter.antt =====
-- pr_agent/algo/file_filter.py: files that match a pattern of the settings are left out.
pub mod Kept
use my_pr_agent.Prelude.{
  ℕ, Bool, true, false, not, ◌&&◌, ◌||◌, List, [], ◌∷◌, ◌++◌, Option, none, some, keep, drop,
  length, nat_eq, list_eq, ◌==◌, if◌then◌else◌,
}
use my_pr_agent.Dict.{Dict, get}
use my_pr_agent.Text.{split_char, Text, codes, is_empty, starts_with}
use my_pr_agent.Settings.{Several, listed, written}

-- The libraries: `fnmatch.translate`, and `re.compile` with `match`, where `none` is a `re.error`.
pub record Patterns : Type 0 where
  pub translate : Text → Text
  pub compile : Text → Option (Text → Bool)

unfoldable pub translate_globs_to_regexes : Patterns → List Text → List Text
unfolding starts_with
translate_globs_to_regexes re [] = []
translate_globs_to_regexes re (pattern ∷ globs) =
    let rest = translate_globs_to_regexes re globs in
    re.translate pattern
    ∷ (if starts_with (codes "**/") pattern then re.translate (drop 3 pattern) ∷ rest else rest)

pub record IgnoreSettings : Type 0 where
  pub regex : Several
  pub glob : Several
  pub ignore_language_framework : Several
  pub generated_code : Dict Text Several

-- `s.strip("[]")`
abbrev pub is_bracket : ℕ → Bool
is_bracket c = c == b'[' || c == b']'

unfoldable pub lstrip_brackets : Text → Text
lstrip_brackets [] = []
lstrip_brackets (c ∷ s) = elim (is_bracket c) [ true ↦ lstrip_brackets s | false ↦ c ∷ s ]

unfoldable pub rstrip_brackets : Text → Text
rstrip_brackets [] = []
rstrip_brackets (c ∷ s) =
    let rest = rstrip_brackets s in if is_empty rest && is_bracket c then [] else c ∷ rest

abbrev pub one_or_more : Several → List Text
one_or_more (listed texts) = texts
one_or_more (written text) = text ∷ []

abbrev pub globs_of : Several → List Text
globs_of (listed globs) = globs
globs_of (written text) = split_char b',' (rstrip_brackets (lstrip_brackets text))

-- A text in place of the list is refused with a warning.
abbrev pub generators_of : Several → List Text
generators_of (listed names) = names
generators_of (written text) = []

unfoldable pub generator_patterns : Patterns → Dict Text Several → List Text → List Text
unfolding translate_globs_to_regexes get
generator_patterns re generated_code [] = []
generator_patterns re generated_code (cg ∷ generators) =
    let rest = generator_patterns re generated_code generators in
    elim (get cg generated_code) [
      | none ↦ rest
      | some globs ↦ translate_globs_to_regexes re (one_or_more globs) ++ rest
    ]

unfoldable pub all_patterns : Patterns → IgnoreSettings → List Text
unfolding generator_patterns lstrip_brackets rstrip_brackets split_char
all_patterns re settings =
    one_or_more settings.regex
    ++ translate_globs_to_regexes re (globs_of settings.glob)
    ++ generator_patterns re settings.generated_code
        (generators_of settings.ignore_language_framework)

unfoldable pub compile_all : Patterns → List Text → List (Text → Bool)
compile_all re [] = []
compile_all re (r ∷ patterns) =
    let rest = compile_all re patterns in
    elim (re.compile r) [ none ↦ rest | some matches ↦ matches ∷ rest ]

pub data Platform : Type 0 where
  github bitbucket bitbucket_server gitlab azure gitea other_platform : Platform

-- The paths of a file as the platforms give them: one name, or a new and an old path. An empty text
-- is one that is not there.
pub record ChangedFile : Type 0 where
  pub filename : Text
  pub new_path : Text
  pub old_path : Text

abbrev pub passes : (Text → Bool) → Text → Bool
passes matches path = not (is_empty path) && not (matches path)

unfoldable pub is_kept : Platform → (Text → Bool) → ChangedFile → Bool
is_kept github matches f = passes matches f.filename
is_kept bitbucket matches f = passes matches f.new_path || passes matches f.old_path
is_kept bitbucket_server matches f = passes matches f.filename
is_kept gitlab matches f = passes matches f.new_path || passes matches f.old_path
is_kept azure matches f = not (matches f.filename)
is_kept gitea matches f = not (matches f.filename)
is_kept other_platform matches f = true

unfoldable pub filter_all : Platform → List (Text → Bool) → List ChangedFile → List ChangedFile
filter_all platform [] files = files
filter_all platform (r ∷ compiled) files =
    filter_all platform compiled (keep (is_kept platform r) files)

unfoldable pub filter_ignored :
    Patterns → IgnoreSettings → Platform → List ChangedFile → List ChangedFile
unfolding filter_all all_patterns compile_all
filter_ignored re settings platform files =
    filter_all platform (compile_all re (all_patterns re settings)) files
