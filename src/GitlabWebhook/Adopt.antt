-- ===== src/GitlabWebhook/Adopt.antt =====
-- `/adopt`: a reply that marks a suggestion as adopted by hand, if its lines have changed.
pub mod Checked
use my_pr_agent.Prelude.{
  ℕ, Bool, true, false, not, ◌||◌, Option, none, some, List, [], ◌∷◌, ltb, nat_eq, list_eq, ◌==◌,
  if◌then◌else◌,
}
use my_pr_agent.Text.{Text, codes, is_empty, strip}
use my_pr_agent.SuggestionMatcher.Regions.{GetOpcodes, target_region_changed}

-- The fields of a stored suggestion that are read; what is absent is empty or 0.
pub record Posted : Type 0 where
  pub posted_head_sha : Text
  pub file : Text
  pub line : ℕ
  pub line_end : ℕ

-- The merge request as the provider has it, its file contents and its answer to a resolution;
-- `none` is an exception.
pub record Provider : Type 0 where
  pub mr_sha : Text
  pub diff_head_sha : Text
  pub file_content : Text → Text → Option Text
  pub resolve_discussion : Bool

pub data Verdict : Type 0 where
  posted_sha_unavailable posted_head_unavailable current_head_unavailable same_head : Verdict
  target_metadata_unavailable content_unavailable target_unchanged changed : Verdict

-- `mr.sha or diff_refs["head_sha"]`
unfoldable pub current_head : Provider → Text
unfolding strip
current_head p = strip (if is_empty p.mr_sha then p.diff_head_sha else p.mr_sha)

-- `line_end or line or 0`
abbrev pub last_line : Posted → ℕ
last_line s = if s.line_end == 0 then s.line else s.line_end

abbrev pub sentinel : Text
sentinel = codes "__unavailable__"

unfoldable pub compare_contents : GetOpcodes → Posted → Option Text → Option Text → Verdict
unfolding target_region_changed
compare_contents g s none current = content_unavailable
compare_contents g s (some posted) none = content_unavailable
compare_contents g s (some posted) (some current) =
    if is_empty posted || is_empty current
    then content_unavailable
    else if target_region_changed g posted current s.line (last_line s) 1
    then changed
    else target_unchanged

unfoldable pub validate_adopt_target_change : GetOpcodes → Provider → Posted → Verdict
unfolding strip current_head compare_contents
validate_adopt_target_change g p s =
    let posted_sha = strip s.posted_head_sha in
    let head = current_head p in
    let path = strip s.file in
    if is_empty posted_sha
    then posted_sha_unavailable
    else if posted_sha == sentinel
    then posted_head_unavailable
    else if is_empty head
    then current_head_unavailable
    else if head == posted_sha
    then same_head
    else if is_empty path || ltb s.line 1 || ltb (last_line s) s.line
    then target_metadata_unavailable
    else compare_contents g s (p.file_content path posted_sha) (p.file_content path head)

pub data Result : Type 0 where
  adopt_validation_failed adopt_fail adopted : Result

-- What the reply leads to: a message that asks to try again later or to change the code, the
-- resolution of the discussion, the mark in the store.
pub data Effect : Type 0 where
  reply_later reply_change resolve mark_adopted : Effect

-- The message by the reason of a refusal_reply.
abbrev pub refusal_reply : Verdict → Effect
refusal_reply content_unavailable = reply_later
refusal_reply current_head_unavailable = reply_later
refusal_reply _ = reply_change

-- What is done on a verdict; the flag is the answer to the resolution.
unfoldable pub act_on : Bool → Verdict → Result × List Effect
act_on resolved changed =
    if resolved then (adopted, resolve ∷ mark_adopted ∷ []) else (adopt_fail, resolve ∷ [])
act_on resolved why = (adopt_validation_failed, refusal_reply why ∷ [])

unfoldable pub process_adopt_reply : GetOpcodes → Provider → Posted → Result × List Effect
unfolding validate_adopt_target_change act_on
process_adopt_reply g p s = act_on p.resolve_discussion (validate_adopt_target_change g p s)
