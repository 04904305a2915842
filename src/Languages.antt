-- ===== src/Languages.antt =====
-- pr_agent/algo/language_handler.py: which files are shown, grouped by language.
pub mod Groups
use my_pr_agent.Prelude.{
  ℕ, ◌+◌, Bool, true, false, not, ◌&&◌, ◌||◌, List, [], ◌∷◌, ◌++◌, map, Option, none, some, leb,
  nat_eq, list_eq, ◌==◌, contains, keep, any_of, concat, if◌then◌else◌, is_some,
}
use my_pr_agent.Dict.{Dict, get, put}
use my_pr_agent.Text.{Text, codes, is_empty, ends_with, lower}
use my_pr_agent.Patch.{FilePatchInfo}
use my_pr_agent.Pruning.Compressed.{Language}

-- `s.split(sep)[-1]` for a separator of one character: what stands behind the last one.
unfoldable pub last_part : ℕ → Text → Text
last_part sep [] = []
last_part sep (c ∷ s) =
    let rest = last_part sep s in if contains s sep then rest else if c == sep then s else c ∷ s

unfoldable pub replace_char : ℕ → ℕ → Text → Text
replace_char old new [] = []
replace_char old new (c ∷ s) = (if c == old then new else c) ∷ replace_char old new s

abbrev pub auto_generated_files_exact : List Text
auto_generated_files_exact = map codes (
    "package-lock.json" ∷ "yarn.lock" ∷ "pnpm-lock.yaml" ∷ "composer.lock" ∷ "Gemfile.lock"
    ∷ "poetry.lock" ∷ "go.sum" ∷ ".terraform.lock.hcl" ∷ "uv.lock" ∷ "Cargo.lock" ∷ "Pipfile.lock"
    ∷ "mix.lock" ∷ "pubspec.lock" ∷ "bun.lockb" ∷ [])

abbrev pub auto_generated_suffixes : List Text
auto_generated_suffixes =
    map codes (".min.js" ∷ ".min.css" ∷ ".js.map" ∷ ".ts.map" ∷ ".css.map" ∷ [])

-- The settings `bad_extensions.default`, `bad_extensions.extra`, `config.use_extra_bad_extensions`
-- and `language_extension_map_org`.
pub record FileSettings : Type 0 where
  pub bad_default : List Text
  pub bad_extra : List Text
  pub use_extra_bad_extensions : Bool
  pub language_extension_map_org : Dict Text (List Text)

-- As the settings give them. The code adds the extra ones to the list of the settings itself at
-- each call, so that they stand in it again and again, which no test of membership sees.
unfoldable pub configured_bad : FileSettings → List Text
configured_bad settings =
    if settings.use_extra_bad_extensions
    then settings.bad_default ++ settings.bad_extra
    else settings.bad_default

unfoldable pub is_valid_file : FileSettings → Text → List Text → Bool
unfolding configured_bad last_part replace_char
is_valid_file settings filename bad_extensions =
    let bad = if is_empty bad_extensions then configured_bad settings else bad_extensions in
    not (is_empty filename)
    && not (contains auto_generated_files_exact (last_part b'/' (replace_char 92 b'/' filename)))
    && not (any_of (λ suffix. ends_with suffix filename) auto_generated_suffixes)
    && not (contains bad (last_part b'.' filename))

unfoldable pub filter_bad_extensions : FileSettings → List FilePatchInfo → List FilePatchInfo
filter_bad_extensions settings files =
    keep (λ f. is_valid_file settings f.filename (configured_bad settings)) files

-- Sorted by size, the largest first, equal ones in the order in which they stand.
unfoldable pub insert_language : Text × ℕ → List (Text × ℕ) → List (Text × ℕ)
insert_language l [] = l ∷ []
insert_language l (m ∷ ms) = elim (leb m.1 l.1) [
  | true ↦ l ∷ m ∷ ms
  | false ↦ m ∷ insert_language l ms
]

unfoldable pub sort_languages : Dict Text ℕ → List (Text × ℕ)
unfolding insert_language
sort_languages [] = []
sort_languages (l ∷ languages) = insert_language l (sort_languages languages)

abbrev pub lower_keys : Dict Text (List Text) → Dict Text (List Text) → Dict Text (List Text)
lower_keys [] out = out
lower_keys ((k, v) ∷ m) out = lower_keys m (put (lower k) v out)

unfoldable pub extensions_of : Dict Text (List Text) → Text → List Text
extensions_of language_extension_map language = elim (get (lower language) language_extension_map) [
  | none ↦ []
  | some extensions ↦ extensions
]

-- `f".{filename.split('.')[-1]}"`
unfoldable pub extension_str : FilePatchInfo → Text
unfolding last_part
extension_str file = b'.' ∷ last_part b'.' file.filename

unfoldable pub add_rest :
    List Text → List Text → List FilePatchInfo → Dict Text FilePatchInfo → Dict Text FilePatchInfo
unfolding extension_str get put
add_rest extensions flat [] rest = rest
add_rest extensions flat (file ∷ files) rest = add_rest extensions flat files (
    if not (contains extensions (extension_str file))
      && not (is_some (get file.filename rest))
      && not (contains flat (extension_str file))
    then put file.filename file rest
    else rest)

abbrev pub other : List FilePatchInfo → Language
other files = record { language = codes "Other"; files = files }

abbrev pub values {ℓ κ} : {K : Type ℓ} {V : Type κ} → Dict K V → List V
values [] = []
values ((k, v) ∷ m) = v ∷ values m

-- One round for each language, with its extensions; at the end the files of none.
unfoldable pub group_languages :
    List Text
    → List FilePatchInfo
    → List (Text × List Text)
    → Dict Text FilePatchInfo
    → List Language
unfolding add_rest extension_str
group_languages flat files [] rest = other (values rest) ∷ []
group_languages flat files ((lang, extensions) ∷ langs) rest =
    let tmp = keep (λ file. contains extensions (extension_str file)) files in
    let later = group_languages flat files langs (add_rest extensions flat files rest) in
    if is_empty tmp then later else record { language = lang; files = tmp } ∷ later

abbrev pub with_extensions : Dict Text (List Text) → List (Text × ℕ) → List (Text × List Text)
with_extensions extension_map [] = []
with_extensions extension_map ((lang, size) ∷ languages) =
    (lang, extensions_of extension_map lang) ∷ with_extensions extension_map languages

abbrev pub flatten : List (Text × List Text) → List Text
flatten [] = []
flatten ((lang, extensions) ∷ langs) = extensions ++ flatten langs

unfoldable pub sort_files_by_main_languages :
    FileSettings → Dict Text ℕ → List FilePatchInfo → List Language
unfolding group_languages filter_bad_extensions sort_languages extensions_of
sort_files_by_main_languages settings languages files =
    let files_filtered = filter_bad_extensions settings files in
    let extension_map = lower_keys settings.language_extension_map_org [] in
    let langs = with_extensions extension_map (sort_languages languages) in
    if is_empty languages
    then other files_filtered ∷ []
    else group_languages (flatten langs) files_filtered langs []
