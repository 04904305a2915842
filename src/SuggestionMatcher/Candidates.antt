-- ===== src/SuggestionMatcher/Candidates.antt =====
-- `find_applied_suggestion_candidates`: the open suggestions that a commit has applied.
pub mod Cached
use my_pr_agent.Prelude.{
  ℕ, Bool, true, false, not, ◌&&◌, ◌||◌, Option, none, some, List, [], ◌∷◌, nat_eq, list_eq, ◌==◌,
  if◌then◌else◌, any_of, ◌>>=◌,
}
use my_pr_agent.Text.{Text, codes, is_empty, strip}
use my_pr_agent.Dict.{Dict, get, put}
use my_pr_agent.SuggestionMatcher.{
  Span, find_spans, ranges_overlap, normalize_file_lines, normalize_patch_lines,
  extract_suggestion_patch,
}
use my_pr_agent.SuggestionMatcher.Regions.{
  Opcode, GetOpcodes, span_is_unchanged, patch_region_deleted,
}

-- A suggestion as a mapping; a text that is absent is empty.
pub record OpenSuggestion : Type 0 where
  pub state : Option Text
  pub suggestion_id : Text
  pub note_id : Text
  pub file : Text

-- The arguments for one commit. Of a note only its body is read, which is empty if it is absent.
pub record Commit : Type 0 where
  pub notes_by_discussion : Dict Text Text
  pub parent_files : Dict Text Text
  pub current_files : Dict Text Text
  pub changed_ranges_by_file : Dict Text (List Span)

-- An entry of `file_cache`.
pub record FileLines : Type 0 where
  pub parent_lines : List Text
  pub current_lines : List Text
  pub opcodes : List Opcode

-- What the guards of the loop leave of a suggestion.
pub record Selected : Type 0 where
  pub id : Text
  pub path : Text
  pub patch : Text
  pub parent : Text
  pub current : Text
  pub changed_ranges : List Span

abbrev pub is_open : Option Text → Bool
is_open none = true
is_open (some s) = s == codes "open"

-- `d.get(key) or empty`
abbrev pub get_or_empty {ℓ} : {A : Type ℓ} → Text → Dict Text (List A) → List A
get_or_empty key d = elim (get key d) [ none ↦ [] | some xs ↦ xs ]

-- The guards in their order; `none` is `continue`.
unfoldable pub select : Commit → OpenSuggestion → Option Selected
unfolding strip extract_suggestion_patch get
select commit s =
    let id = strip s.suggestion_id in
    let discussion = strip s.note_id in
    let path = strip s.file in
    let ranges = get_or_empty path commit.changed_ranges_by_file in
    if not (is_open s.state)
    then none
    else extract_suggestion_patch (get_or_empty discussion commit.notes_by_discussion) >>= λ patch.
        if is_empty id || is_empty discussion || is_empty path || is_empty patch
        then none
        else get path commit.parent_files >>= λ parent. get path commit.current_files >>= λ current.
            if is_empty ranges
            then none
            else some (record {
              id = id;
              path = path;
              patch = patch;
              parent = parent;
              current = current;
              changed_ranges = ranges;
            })

unfoldable pub compare_files : GetOpcodes → Text → Text → FileLines
unfolding normalize_file_lines
compare_files get_opcodes parent current =
    let parent_lines = normalize_file_lines parent in
    let current_lines = normalize_file_lines current in
    record {
      parent_lines = parent_lines;
      current_lines = current_lines;
      opcodes = get_opcodes parent_lines current_lines;
    }

-- The replacement match, and the deletion match if there is none.
unfoldable pub is_applied : FileLines → Selected → Bool
unfolding normalize_patch_lines find_spans ranges_overlap span_is_unchanged patch_region_deleted
is_applied files s =
    let patch_lines = normalize_patch_lines s.patch in
    any_of
      (λ span.
        any_of (ranges_overlap span) s.changed_ranges && not (span_is_unchanged span files.opcodes))
      (find_spans files.current_lines patch_lines)
    || any_of (λ parent_span. patch_region_deleted parent_span files.opcodes s.changed_ranges)
        (find_spans files.parent_lines patch_lines)

-- The entry of `file_cache` for a file, which is made if it is not there, and the cache with it.
unfoldable pub cached :
    GetOpcodes → Selected → Dict Text FileLines → FileLines × Dict Text FileLines
unfolding compare_files get put
cached get_opcodes s file_cache = elim (get s.path file_cache) [
  | some files ↦ (files, file_cache)
  | none ↦
      let files = compare_files get_opcodes s.parent s.current in
      (files, put s.path files file_cache)
]

unfoldable pub candidates_from :
    GetOpcodes → Commit → Dict Text FileLines → List OpenSuggestion → List Text
unfolding select cached is_applied
candidates_from get_opcodes commit file_cache [] = []
candidates_from get_opcodes commit file_cache (s ∷ suggestions) = elim (select commit s) [
  | none ↦ candidates_from get_opcodes commit file_cache suggestions
  | some selected ↦
      let (files, next_cache) = cached get_opcodes selected file_cache in
      let later = candidates_from get_opcodes commit next_cache suggestions in
      if is_applied files selected then selected.id ∷ later else later
]

unfoldable pub find_applied_suggestion_candidates :
    GetOpcodes → Commit → List OpenSuggestion → List Text
unfolding candidates_from
find_applied_suggestion_candidates get_opcodes commit open_suggestions =
    candidates_from get_opcodes commit [] open_suggestions
