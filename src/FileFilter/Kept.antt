-- ===== src/FileFilter/Kept.antt =====
-- Which files `filter_ignored` keeps.
use my_pr_agent.Prelude.{
  ◌≡◌, refl, sym, ◌∙◌, ap, ap₂, inl, inr, Bool, Bool-cases, Option-cases, true, false, not, ◌&&◌,
  ◌||◌, none, some, List, [], ◌∷◌, ◌++◌, keep, all_of, any_of, any_of-append, drop, nat_eq, list_eq,
  arith,
}
use my_pr_agent.Dict.{Dict, get}
use my_pr_agent.Settings.{Several}
use my_pr_agent.Text.{Text, codes, is_empty, starts_with}
use my_pr_agent.FileFilter.{
  Patterns, translate_globs_to_regexes, IgnoreSettings, one_or_more, globs_of, generators_of,
  generator_patterns, all_patterns, compile_all, Platform, github, bitbucket, bitbucket_server,
  gitlab, azure, gitea, other_platform, ChangedFile, is_kept, filter_all, filter_ignored,
}

keep_all : (files : List ChangedFile) → keep (λ f. true) files ≡ files
keep_all [] = refl
keep_all (f ∷ files) = ground (arith, keep_all files)

keep-keep :
    (p q : ChangedFile → Bool) (files : List ChangedFile)
    → keep q (keep p files) ≡ keep (λ f. p f && q f) files
keep-keep p q [] = refl
keep-keep p q (f ∷ files) = elim (Bool-cases (p f)) [
  | inl yes_p ↦ ground (arith, yes_p, keep-keep p q files)
  | inr no_p ↦ ground (arith, no_p, keep-keep p q files)
]

filter_all_lem :
    (platform : Platform) (compiled : List (Text → Bool)) (files : List ChangedFile)
    → filter_all platform compiled files
      ≡ keep (λ f. all_of (λ r. is_kept platform r f) compiled) files
unfolding filter_all
filter_all_lem platform [] files = sym (keep_all files)
filter_all_lem platform (r ∷ compiled) files =
    filter_all_lem platform compiled (keep (is_kept platform r) files)
    ∙ keep-keep (is_kept platform r) (λ f. all_of (λ s. is_kept platform s f) compiled) files

-- The paths that a platform gives of a file.
abbrev paths : Platform → ChangedFile → List Text
paths github f = f.filename ∷ []
paths bitbucket f = f.new_path ∷ f.old_path ∷ []
paths bitbucket_server f = f.filename ∷ []
paths gitlab f = f.new_path ∷ f.old_path ∷ []
paths azure f = f.filename ∷ []
paths gitea f = f.filename ∷ []
paths other_platform f = []

-- Whether a path that is not there counts as one.
abbrev counts_empty : Platform → Bool
counts_empty azure = true
counts_empty gitea = true
counts_empty _ = false

abbrev is_known : Platform → Bool
is_known other_platform = false
is_known _ = true

-- On a platform that is known, a pattern ignores a file if it matches each path that counts.
unfoldable pub ignores : Platform → ChangedFile → (Text → Bool) → Bool
ignores platform f matches =
    is_known platform
    && all_of (λ path. matches path || is_empty path && not (counts_empty platform))
        (paths platform f)

-- A pattern that does not compile ignores nothing.
unfoldable pub regex_ignores : Patterns → Platform → ChangedFile → Text → Bool
unfolding ignores
regex_ignores re platform f pattern = elim (re.compile pattern) [
  | none ↦ false
  | some matches ↦ ignores platform f matches
]

-- A glob ignores what it matches, and one that begins with **/ what the rest of it matches too.
unfoldable pub glob_ignores : Patterns → Platform → ChangedFile → Text → Bool
unfolding regex_ignores starts_with
glob_ignores re platform f glob =
    regex_ignores re platform f (re.translate glob)
    || starts_with (codes "**/") glob && regex_ignores re platform f (re.translate (drop 3 glob))

abbrev generated : Dict Text Several → Text → List Text
generated generated_code cg = elim (get cg generated_code) [
  | none ↦ []
  | some globs ↦ one_or_more globs
]

-- Whether a file is ignored: by a regular expression, a glob, or a glob of a generator of code.
unfoldable pub is_ignored_file : Patterns → IgnoreSettings → Platform → ChangedFile → Bool
unfolding regex_ignores glob_ignores get
is_ignored_file re settings platform f =
    any_of (regex_ignores re platform f) (one_or_more settings.regex)
    || (any_of (glob_ignores re platform f) (globs_of settings.glob)
        || any_of (λ cg. any_of (glob_ignores re platform f) (generated settings.generated_code cg))
            (generators_of settings.ignore_language_framework))

is_kept-ignores :
    (platform : Platform) (matches : Text → Bool) (f : ChangedFile)
    → is_kept platform matches f ≡ not (ignores platform f matches)
unfolding is_kept ignores
is_kept-ignores github matches f = ground arith
is_kept-ignores bitbucket matches f = ground arith
is_kept-ignores bitbucket_server matches f = ground arith
is_kept-ignores gitlab matches f = ground arith
is_kept-ignores azure matches f = ground arith
is_kept-ignores gitea matches f = ground arith
is_kept-ignores other_platform matches f = refl

or_assoc : (a b c : Bool) → ((a || b) || c) ≡ (a || (b || c))
or_assoc true b c = refl
or_assoc false b c = refl

module _ (re : Patterns) (platform : Platform) (f : ChangedFile) where
  compiled-ignores :
      (patterns : List Text)
      → all_of (λ r. is_kept platform r f) (compile_all re patterns)
        ≡ not (any_of (regex_ignores re platform f) patterns)
  unfolding compile_all regex_ignores
  compiled-ignores [] = refl
  compiled-ignores (r ∷ patterns) = elim (Option-cases (re.compile r)) [
    | inl broken ↦ rw (broken, compile_all, regex_ignores) (compiled-ignores patterns)
    | inr (matches, fine) ↦
        ground (arith, fine, is_kept-ignores platform matches f, compiled-ignores patterns)
  ]

  globs-ignores :
      (globs : List Text)
      → any_of (regex_ignores re platform f) (translate_globs_to_regexes re globs)
        ≡ any_of (glob_ignores re platform f) globs
  unfolding translate_globs_to_regexes glob_ignores
  globs-ignores [] = refl
  globs-ignores (g ∷ globs) = elim (Bool-cases (starts_with (codes "**/") g)) [
    | inl deep ↦ ground (arith, deep, globs-ignores globs)
    | inr flat ↦ ground (arith, flat, globs-ignores globs)
  ]

  generators-ignores :
      (generated_code : Dict Text Several) (names : List Text)
      → any_of (regex_ignores re platform f) (generator_patterns re generated_code names)
        ≡ any_of (λ cg. any_of (glob_ignores re platform f) (generated generated_code cg)) names
  unfolding generator_patterns
  generators-ignores generated_code [] = refl
  generators-ignores generated_code (cg ∷ names) = elim (Option-cases (get cg generated_code)) [
    | inl absent ↦
        rw (absent, generator_patterns, generated, any_of) (generators-ignores generated_code names)
    | inr (globs, there) ↦
        rw (there, generator_patterns, generated, any_of)
          (any_of-append (regex_ignores re platform f)
              (translate_globs_to_regexes re (one_or_more globs))
              (generator_patterns re generated_code names)
            ∙ ap₂ (λ a b. a || b) (globs-ignores (one_or_more globs))
                (generators-ignores generated_code names))
  ]

  patterns-ignores :
      (settings : IgnoreSettings)
      → any_of (regex_ignores re platform f) (all_patterns re settings)
        ≡ is_ignored_file re settings platform f
  unfolding all_patterns is_ignored_file
  patterns-ignores settings =
      let globs = translate_globs_to_regexes re (globs_of settings.glob) in
      let names = generators_of settings.ignore_language_framework in
      let others = generator_patterns re settings.generated_code names in
      let regexes = one_or_more settings.regex in
      any_of-append (regex_ignores re platform f) (regexes ++ globs) others
      ∙ (ap₂ (λ a b. a || b)
            (any_of-append (regex_ignores re platform f) regexes globs
              ∙ ap (λ b. any_of (regex_ignores re platform f) regexes || b)
                  (globs-ignores (globs_of settings.glob)))
            (generators-ignores settings.generated_code names)
          ∙ or_assoc (any_of (regex_ignores re platform f) regexes)
              (any_of (glob_ignores re platform f) (globs_of settings.glob)) _)

keep-same :
    (p q : ChangedFile → Bool)
    → ((f : ChangedFile) → p f ≡ q f)
    → (files : List ChangedFile) → keep p files ≡ keep q files
keep-same p q h [] = refl
keep-same p q h (f ∷ files) = ground (arith, h f, keep-same p q h files)

-- The files that are left are, in their order, those that are not ignored: by no regular expression
-- of the settings, no glob and no glob of a generator that is asked for. An expression that does not
-- compile ignores none; any other ignores a file if it matches each path of it that counts on the
-- platform, which for GitLab and Bitbucket are the new and the old path.
pub filter_ignored_lem :
    (re : Patterns) (settings : IgnoreSettings) (platform : Platform) (files : List ChangedFile)
    → filter_ignored re settings platform files
      ≡ keep (λ f. not (is_ignored_file re settings platform f)) files
unfolding filter_ignored
filter_ignored_lem re settings platform files =
    let compiled = compile_all re (all_patterns re settings) in
    filter_all_lem platform compiled files
    ∙ keep-same (λ f. all_of (λ r. is_kept platform r f) compiled)
        (λ f. not (is_ignored_file re settings platform f))
        (λ f.
          compiled-ignores re platform f (all_patterns re settings)
          ∙ ap not (patterns-ignores re platform f settings))
        files
