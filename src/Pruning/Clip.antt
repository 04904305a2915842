-- ===== src/Pruning/Clip.antt =====
-- `clip_tokens` of pr_agent/algo/utils.py and `add_ai_summary_top_patch` of
-- pr_agent/algo/pr_processing.py.
use my_pr_agent.Prelude.{
  ℕ, Bool, not, ◌&&◌, ◌||◌, List, [], ◌∷◌, ◌++◌, Option, none, some, leb, ltb, nat_eq, list_eq,
  ◌==◌, contains, if◌then◌else◌, length, take,
}
use my_pr_agent.Text.{split_char, Text, codes, newline, is_empty, starts_with, join}

-- `s.rsplit(sep, 1)[0]`: what stands before the last separator, or all.
unfoldable pub before_last : ℕ → Text → Text
before_last sep [] = []
before_last sep (c ∷ s) =
    let rest = before_last sep s in if c == sep && not (contains s sep) then [] else c ∷ rest

-- The number of characters that are kept is computed in floating point, from the number of
-- characters, that of tokens and the most tokens: `int(0.9 * (num_chars / num_tokens) * max_tokens)`.
abbrev pub OutputChars : Type 0
OutputChars = ℕ → ℕ → ℕ → ℕ

-- With `num_input_tokens` counted by the caller; `none` is a negative `max_tokens`.
unfoldable pub clip_tokens : OutputChars → Text → Option ℕ → ℕ → Bool → Bool → Text
unfolding before_last
clip_tokens output_chars text none num_input_tokens add_three_dots delete_last_line = []
clip_tokens output_chars text (some max_tokens) num_input_tokens add_three_dots delete_last_line =
    let n = output_chars (length text) num_input_tokens max_tokens in
    let cut = if delete_last_line then before_last newline (take n text) else take n text in
    if is_empty text || leb num_input_tokens max_tokens
    then text
    else if ltb 0 n
    then (if add_three_dots then cut ++ codes "\n...(truncated)" else cut)
    else []

-- Below the first line that names a file.
unfoldable pub insert_summary : Text → List Text → List Text
insert_summary summary [] = []
insert_summary summary (line ∷ lines) =
    let rest = insert_summary summary lines in
    if starts_with (codes "## File:") line || starts_with (codes "## file:") line
    then line ∷ (codes "### AI-generated changes summary:\n" ++ summary) ∷ lines
    else line ∷ rest

unfoldable pub add_ai_summary_top_patch : Text → Text → Text
unfolding insert_summary split_char
add_ai_summary_top_patch summary full_extended_patch =
    join (newline ∷ []) (insert_summary summary (split_char newline full_extended_patch))
