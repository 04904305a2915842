-- ===== src/Tests/TimeoutRuns.antt =====
-- Keys that expire, and what a missing key leaves behind where no factory is given.
use my_pr_agent.Prelude.{
  ℕ, ◌≡◌, refl, true, false, none, some, [], ◌∷◌, nat_eq, ◌==◌, Bool-cases, inl, inr, if◌then◌else◌,
}
use my_pr_agent.Dict.{get}
use my_pr_agent.TimeoutDict.{TimeoutSettings, TimeoutDict, no_keys, set_item, refresh, get_item}
use my_pr_agent.TimeoutDict.Lookup.{IsInStep, or_default, is_stale, Answers, get_item-Answers}

abbrev timed : TimeoutSettings ℕ
timed = record {
  default_factory = some 0;
  ttl = some 10;
  refresh_interval = 5;
  update_key_time_on_get = false;
}

abbrev one_key : TimeoutDict ℕ ℕ
one_key = record { entries = (7, 3) ∷ []; key_times = (7, 1) ∷ []; refresh_due = 0 }

set_then_got : (get_item {K = ℕ} timed 4 7 (set_item 1 7 3 (no_keys 0))).1 ≡ some 3
unfolding get_item set_item
set_then_got = refl

expired_is_default : (get_item timed 12 7 one_key).1 ≡ some 0
unfolding get_item
expired_is_default = refl

one_key-IsInStep : IsInStep one_key
unfolding get
one_key-IsInStep = (
  (λ j. elim (Bool-cases (7 == j)) [ inl same ↦ rw (same) refl | inr apart ↦ rw (apart) refl ]),
  (refl, tt),
)

get_item-Answers_example :
    Answers
      (or_default 0 (if is_stale timed 12 7 one_key then none else get 7 one_key.entries))
      (get_item timed 12 7 one_key)
get_item-Answers_example = get_item-Answers timed 12 7 one_key 0 refl one_key-IsInStep

-- The access to a missing key fails and keeps its time, at which the refresh for another key fails
-- later on.
abbrev bare : TimeoutSettings ℕ
bare = record timed { default_factory = none; update_key_time_on_get = true }

missing_keeps_time : (get_item {K = ℕ} bare 0 7 (no_keys 0)).1 ≡ none
unfolding get_item
missing_keeps_time = refl

later_refresh_fails : (refresh {K = ℕ} bare 20 (get_item {K = ℕ} bare 0 7 (no_keys 0)).0).1 ≡ false
unfolding get_item refresh
later_refresh_fails = refl
