-- ===== src/DiffParsing.antt =====
-- pr_agent/git_providers/diff_parsing.py: files of a unified diff, and the base of a changed file.
-- The parser is the library unidiff; the records are the part of its objects that the code reads.
pub mod Reverse
pub mod HeaderLines
use my_pr_agent.Prelude.{
  ℕ, ◌+◌, ◌-◌, Bool, true, false, ◌&&◌, ◌||◌, not, List, [], ◌∷◌, ◌++◌, Option, none, some, ltb,
  nat_eq, list_eq, ◌==◌, if◌then◌else◌, ◌>>=◌, length, concat, get_elem?, slice, drop,
}
use my_pr_agent.Text.{Text, codes, newline, is_empty, starts_with, ends_with, join}
use my_pr_agent.Text.Lines.{splitlines, splitlines_keepends}
use my_pr_agent.Patch.{EditType, added, deleted, modified, renamed, FilePatchInfo}

-- What a line of a hunk is: one of the tests `is_context`, `is_added` and `is_removed` holds, or
-- none for the mark of a missing newline.
pub data LineType : Type 0 where
  context insertion removal mark : LineType

pub record HunkLine : Type 0 where
  pub line_type : LineType
  pub value : Text

pub record Hunk : Type 0 where
  pub target_start : ℕ
  pub lines : List HunkLine

pub record PatchedFile : Type 0 where
  pub is_binary_file : Bool
  pub is_added_file : Bool
  pub is_removed_file : Bool
  pub is_rename : Bool
  pub source_file : Option Text
  pub target_file : Option Text
  pub content : Text
  pub hunks : List Hunk

-- `PatchSet(text)`; `none` is an `UnidiffParseError`.
abbrev pub Parser : Type 0
Parser = Text → Option (List PatchedFile)

unfoldable pub strip_prefix : Option Text → Option Text
strip_prefix none = none
strip_prefix (some path) =
    if starts_with (codes "a/") path || starts_with (codes "b/") path
    then some (drop 2 path)
    else some path

unfoldable pub edit_type_of : PatchedFile → EditType
edit_type_of pf =
    if pf.is_added_file
    then added
    else if pf.is_removed_file
    then deleted
    else if pf.is_rename
    then renamed
    else modified

-- A file of the diff as the tools know it. The name of a file is never absent: unidiff reads both
-- names of every file, and an absent one is empty here.
unfoldable pub file_info : PatchedFile → FilePatchInfo
unfolding strip_prefix edit_type_of
file_info pf = record {
  base_file = [];
  head_file = [];
  patch = pf.content;
  filename = elim (strip_prefix (if pf.is_removed_file then pf.source_file else pf.target_file)) [
    | none ↦ []
    | some name ↦ name
  ];
  tokens = none;
  edit_type = edit_type_of pf;
  old_filename = if pf.is_rename then strip_prefix pf.source_file else none;
  num_plus_lines = none;
  num_minus_lines = none;
  language = none;
  ai_file_summary = none;
}

unfoldable pub file_infos : List PatchedFile → List FilePatchInfo
unfolding file_info
file_infos [] = []
file_infos (pf ∷ patch_set) =
    let rest = file_infos patch_set in if pf.is_binary_file then rest else file_info pf ∷ rest

unfoldable pub parse_unified_diff : Parser → Text → Option (List FilePatchInfo)
unfolding file_infos
parse_unified_diff parse diff_text = do patch_set ← parse diff_text; some (file_infos patch_set)

-- The lines from the first on that begins with @@, put together again.
unfoldable pub from_header : List Text → Text
from_header [] = []
from_header (line ∷ lines) = elim (starts_with (codes "@@") line) [
  | true ↦ concat (line ∷ lines)
  | false ↦ from_header lines
]

unfoldable pub to_hunk_only_patch : Text → Text
unfolding from_header
to_hunk_only_patch patch_str = from_header (splitlines_keepends patch_str)

-- `value.rstrip("\r\n")`
unfoldable pub rstrip_ends : Text → Text
rstrip_ends [] = []
rstrip_ends (c ∷ s) =
    let rest = rstrip_ends s in if is_empty rest && (c == 13 || c == 10) then [] else c ∷ rest

-- The loop's variables; `none` is a return of the empty text.
pub record Cursor : Type 0 where
  pub head_idx : ℕ
  pub base_lines : List Text

unfoldable pub reverse_line : List Text → HunkLine → Cursor → Option Cursor
unfolding rstrip_ends
reverse_line head_lines line c =
    let value = rstrip_ends line.value in
    elim line.line_type [
      | context ↦ elim (get_elem? head_lines c.head_idx) [
        | none ↦ none
        | some head_line ↦
            if head_line == value
            then some
                (record { head_idx = c.head_idx + 1; base_lines = c.base_lines ++ head_line ∷ [] })
            else none
      ]
      | insertion ↦ elim (get_elem? head_lines c.head_idx) [
        | none ↦ none
        | some head_line ↦
            if head_line == value then some (record c { head_idx = c.head_idx + 1 }) else none
      ]
      | removal ↦ some (record c { base_lines = c.base_lines ++ value ∷ [] })
      | mark ↦ some c
    ]

unfoldable pub reverse_lines : List Text → List HunkLine → Cursor → Option Cursor
unfolding reverse_line
reverse_lines head_lines [] c = some c
reverse_lines head_lines (line ∷ lines) c =
    reverse_line head_lines line c >>= reverse_lines head_lines lines

-- With `hunk_head_start` written out as `target_start - 1`, which is -1 where the start is 0.
unfoldable pub reverse_hunk : List Text → Hunk → Cursor → Option Cursor
unfolding reverse_lines
reverse_hunk head_lines hunk c =
    if ltb hunk.target_start (c.head_idx + 1) || ltb (length head_lines + 1) hunk.target_start
    then none
    else reverse_lines head_lines hunk.lines (record {
      head_idx = hunk.target_start - 1;
      base_lines = c.base_lines ++ slice head_lines c.head_idx (hunk.target_start - 1);
    })

unfoldable pub reverse_hunks : List Text → List Hunk → Cursor → Option Cursor
unfolding reverse_hunk
reverse_hunks head_lines [] c = some c
reverse_hunks head_lines (hunk ∷ hunks) c =
    reverse_hunk head_lines hunk c >>= reverse_hunks head_lines hunks

abbrev pub cursor_init : Cursor
cursor_init = record { head_idx = 0; base_lines = [] }

-- The text of the lines, which ends with a newline if the head does and there is a line.
unfoldable pub close_text : Text → List Text → Text
close_text head_file_str base_lines =
    let result = join (newline ∷ []) base_lines in
    if not (is_empty base_lines) && ends_with (newline ∷ []) head_file_str
    then result ++ newline ∷ []
    else result

abbrev pub reverse_file : Text → List PatchedFile → Text
reverse_file head_file_str (pf ∷ []) =
    let head_lines = splitlines head_file_str in
    elim (reverse_hunks head_lines pf.hunks cursor_init) [
      | none ↦ []
      | some c ↦ close_text head_file_str (c.base_lines ++ drop c.head_idx head_lines)
    ]
reverse_file head_file_str _ = []

unfoldable pub reconstruct_base_file : Parser → Text → Text → Text
unfolding reverse_hunks close_text
reconstruct_base_file parse head_file_str patch_str = elim (parse patch_str) [
  | none ↦ []
  | some patch_set ↦ reverse_file head_file_str patch_set
]
