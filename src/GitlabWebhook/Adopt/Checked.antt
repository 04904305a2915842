-- ===== src/GitlabWebhook/Adopt/Checked.antt =====
-- Nothing is marked as adopted unless its lines have changed.
use my_pr_agent.Prelude.{
  ℕ, zero, suc, sym, ◌+◌, ◌-◌, min, ◌≡◌, refl, Bool, true, false, not, ◌&&◌, Option, none, some,
  List, [], ◌∷◌, leb, nat_eq, list_eq, ◌==◌, length, arith,
}
use my_pr_agent.Text.{Text, is_empty, strip}
use my_pr_agent.SuggestionMatcher.{normalize_file_lines}
use my_pr_agent.SuggestionMatcher.Regions.{GetOpcodes, window_unchanged, target_region_changed}
use my_pr_agent.SuggestionMatcher.Regions.Drift.{IsMatcher, target_region_changed_lem}
use my_pr_agent.GitlabWebhook.Adopt.{
  Posted, Provider, Verdict, changed, posted_sha_unavailable, posted_head_unavailable,
  current_head_unavailable, same_head, target_metadata_unavailable, content_unavailable,
  target_unchanged, act_on, current_head, last_line, sentinel, compare_contents,
  validate_adopt_target_change, Result, adopted, Effect, mark_adopted, process_adopt_reply,
}

-- Whether the lines of a suggestion and one on each side are no longer part of one equal block.
abbrev pub is_edited : GetOpcodes → Posted → Text → Text → Bool
is_edited g s posted_content current_content =
    let posted = normalize_file_lines posted_content in
    leb s.line (length posted)
    && not (
        window_unchanged (s.line - 1 - 1) (min (length posted) (last_line s + 1))
          (g posted (normalize_file_lines current_content)))

abbrev pub both_edited : GetOpcodes → Posted → Option Text → Option Text → Bool
both_edited g s (some posted) (some current) =
    not (is_empty posted) && not (is_empty current) && is_edited g s posted current
both_edited g s _ _ = false

-- The head that the suggestion was posted for is known and is not the current one, its lines are
-- known, and they have changed between the two.
abbrev pub is_adoptable : GetOpcodes → Provider → Posted → Bool
is_adoptable g p s =
    let posted_sha = strip s.posted_head_sha in
    let head = current_head p in
    let path = strip s.file in
    not (is_empty posted_sha)
    && not (posted_sha == sentinel)
    && not (is_empty head)
    && not (head == posted_sha)
    && not (is_empty path)
    && leb 1 s.line
    && leb s.line (last_line s)
    && both_edited g s (p.file_content path posted_sha) (p.file_content path head)

abbrev pub is_changed : Verdict → Bool
is_changed changed = true
is_changed _ = false

abbrev pub is_adopted : Result → Bool
is_adopted adopted = true
is_adopted _ = false

abbrev pub marks : List Effect → Bool
marks [] = false
marks (mark_adopted ∷ effects) = true
marks (_ ∷ effects) = marks effects

edited :
    (g : GetOpcodes) (m : IsMatcher g) (posted current : Text) (line stop : ℕ)
    → leb 1 line ≡ true
    → leb line stop ≡ true
    → target_region_changed g posted current line stop 1 ≡ (
        leb line (length (normalize_file_lines posted))
        && not (
            window_unchanged
              (line - 1 - 1)
              (min (length (normalize_file_lines posted)) (stop + 1))
              (g (normalize_file_lines posted) (normalize_file_lines current))))
edited g m posted current line zero first ordered = ground (arith, first, ordered)
edited g m posted current line (suc stop) first ordered =
    let known = target_region_changed_lem g m posted current line (suc stop) 1 in
    ground (arith, first, ordered, known)

compare_contents-changed :
    (g : GetOpcodes) (m : IsMatcher g) (s : Posted) (posted current : Option Text)
    → leb 1 s.line ≡ true
    → leb s.line (last_line s) ≡ true
    → is_changed (compare_contents g s posted current) ≡ both_edited g s posted current
unfolding compare_contents
compare_contents-changed g m s none current first ordered = refl
compare_contents-changed g m s (some posted) none first ordered = refl
compare_contents-changed g m s (some posted) (some current) first ordered =
    ground (arith, edited g m posted current s.line (last_line s) first ordered)

validate-changed :
    (g : GetOpcodes) (m : IsMatcher g) (p : Provider) (s : Posted)
    → is_changed (validate_adopt_target_change g p s) ≡ is_adoptable g p s
unfolding validate_adopt_target_change
validate-changed g m p s =
    let before = p.file_content (strip s.file) (strip s.posted_head_sha) in
    let after = p.file_content (strip s.file) (current_head p) in
    ground (arith, compare_contents-changed g m s before after)

act_on-marks :
    (resolved : Bool) (why : Verdict)
    → (marks (act_on resolved why).1 ≡ (is_changed why && resolved))
      × (is_adopted (act_on resolved why).0 ≡ marks (act_on resolved why).1)
unfolding act_on
act_on-marks true changed = (refl, refl)
act_on-marks false changed = (refl, refl)
act_on-marks resolved posted_sha_unavailable = (refl, refl)
act_on-marks resolved posted_head_unavailable = (refl, refl)
act_on-marks resolved current_head_unavailable = (refl, refl)
act_on-marks resolved same_head = (refl, refl)
act_on-marks resolved target_metadata_unavailable = (refl, refl)
act_on-marks resolved content_unavailable = (refl, refl)
act_on-marks resolved target_unchanged = (refl, refl)

-- With opcodes as difflib documents them, a suggestion is marked as adopted exactly if it is
-- adoptable and its discussion is resolved, and that is when the result says so.
pub process_adopt_reply-adopts :
    (g : GetOpcodes) (m : IsMatcher g) (p : Provider) (s : Posted)
    → (marks (process_adopt_reply g p s).1 ≡ (is_adoptable g p s && p.resolve_discussion))
      × (is_adopted (process_adopt_reply g p s).0 ≡ marks (process_adopt_reply g p s).1)
unfolding process_adopt_reply
process_adopt_reply-adopts g m p s =
    rw (sym (validate-changed g m p s))
      (act_on-marks p.resolve_discussion (validate_adopt_target_change g p s))
