-- ===== src/GitlabWebhook/RunSlots/Exclusion.antt =====
-- A lock is held exactly while a run with its key is under way.
use my_pr_agent.Prelude.{
  ℕ, ◌+◌, ◌≤◌, ◌≡◌, refl, sym, ◌∙◌, ap, subst, Bool, true, false, Option, none, some, List, [], ◌∷◌,
  ◌++◌, arith, nat_eq, pair_eq, list_eq, ◌==◌, if◌then◌else◌,
}
use my_pr_agent.Dict.{get, get-put}
use my_pr_agent.GitlabWebhook.RunSlots.{
  SlotKey, slot_of, Slots, get_mr_lock, acquire_mr_run_slot, release_mr_run_slot, take_lock,
  end_run, Runs, no_runs, RunStep, begin, skip, finish, RunReach, here, next,
}
use my_pr_agent.GitlabWebhook.RunSlots.Apart.{key_eq_iff}

-- The runs that are under way with a key.
abbrev pub runs_of : SlotKey → List SlotKey → ℕ
runs_of k [] = 0
runs_of k (key ∷ active) = (if key == k then 1 else 0) + runs_of k active

runs_of-split :
    (k key : SlotKey) (before after : List SlotKey)
    → runs_of k (before ++ key ∷ after) ≡ (if key == k then 1 else 0) + runs_of k (before ++ after)
runs_of-split k key [] after = omega arith
runs_of-split k key (x ∷ before) after = omega (arith, runs_of-split k key before after)

abbrev lock_count : Option Bool → ℕ
lock_count (some true) = 1
lock_count _ = 0

held_at : SlotKey → Slots → ℕ
held_at k s = lock_count (get k s.locks)

held_at-acquire :
    (pause : ℕ) (k key : SlotKey) (now : ℕ) (s : Slots)
    → held_at k (acquire_mr_run_slot pause key now s).1 ≡ held_at k s
unfolding held_at acquire_mr_run_slot get_mr_lock
held_at-acquire pause k key now s = ground (arith, get-put key k false s.locks, key_eq_iff key k)

free-acquire :
    (pause : ℕ) (key : SlotKey) (now : ℕ) (s : Slots)
    → (acquire_mr_run_slot pause key now s).0 ≡ none
    → held_at key s ≡ 0
unfolding held_at acquire_mr_run_slot get_mr_lock
free-acquire pause key now s free = ground (arith, free)

held_at-take_lock :
    (k key : SlotKey) (s : Slots)
    → held_at k (take_lock key s) ≡ (if key == k then 1 else held_at k s)
unfolding held_at take_lock
held_at-take_lock k key s = ground (arith, get-put key k true s.locks)

held_at-end_run :
    (k key : SlotKey) (now : ℕ) (s : Slots)
    → held_at k (end_run key now s) ≡ (if key == k then 0 else held_at k s)
unfolding held_at end_run release_mr_run_slot get_mr_lock
held_at-end_run k key now s = ground (arith, get-put key k false s.locks, key_eq_iff key k)

held_at-bound : (k : SlotKey) (s : Slots) → held_at k s ≤ 1
unfolding held_at
held_at-bound k s = count_bound (get k s.locks)
  where
    count_bound : (o : Option Bool) → lock_count o ≤ 1
    count_bound none = omega arith
    count_bound (some true) = omega arith
    count_bound (some false) = omega arith

free_for :
    (pause : ℕ) (k key : SlotKey) (now : ℕ) (s : Slots)
    → (acquire_mr_run_slot pause key now s).0 ≡ none
    → (key == k) ≡ true
    → held_at k s ≡ 0
free_for pause k key now s free same =
    subst (λ t. held_at t s ≡ 0) ((key_eq_iff key k).0 same) (free-acquire pause key now s free)

abbrev IsExclusive : Runs → Type 0
IsExclusive r = (k : SlotKey) → runs_of k r.active ≡ held_at k r.slots

RunStep-IsExclusive : {pause : ℕ} {r u : Runs} → RunStep pause r u → IsExclusive r → IsExclusive u
RunStep-IsExclusive {pause} {r} (begin e now later free es ec ea) h k =
    let key = slot_of e in
    let s = (acquire_mr_run_slot pause key now r.slots).1 in
    let begin_count : runs_of k (key ∷ r.active) ≡ held_at k (take_lock key s) = ground (
      arith,
      h k,
      free_for pause k key now r.slots free,
      held_at-acquire pause k key now r.slots,
      held_at-take_lock k key s,
    ) in
    ap (runs_of k) ea ∙ (begin_count ∙ sym (ap (held_at k) es))
RunStep-IsExclusive {pause} {r} (skip e now why later refused es ec ea) h k =
    let key = slot_of e in
    ap (runs_of k) ea
    ∙ (h k ∙ (sym (held_at-acquire pause k key now r.slots) ∙ sym (ap (held_at k) es)))
RunStep-IsExclusive {pause} {r} (finish before after key now later mine es ec ea) h k =
    let finish_count : runs_of k (before ++ after) ≡ held_at k (end_run key now r.slots) = ground (
      arith,
      h k,
      sym (ap (runs_of k) mine) ∙ h k,
      runs_of-split k key before after,
      held_at-bound k r.slots,
      held_at-end_run k key now r.slots,
    ) in
    ap (runs_of k) ea ∙ (finish_count ∙ sym (ap (held_at k) es))

no_runs-IsExclusive : (clock : ℕ) → IsExclusive (no_runs clock)
unfolding held_at get
no_runs-IsExclusive clock k = refl

RunReach-IsExclusive :
    {pause clock : ℕ} {r : Runs} → RunReach pause (no_runs clock) r → IsExclusive r
RunReach-IsExclusive {pause} {clock} here = no_runs-IsExclusive clock
RunReach-IsExclusive (next r st) = RunStep-IsExclusive st (RunReach-IsExclusive r)

-- Whatever runs begin for events, are skipped or end, in any order, at most one run is under way
-- with a key, which is the project and the number that an event gives. A push event gives no number,
-- so that a run for it does not exclude one for an event of the merge request.
pub one_run :
    {pause clock : ℕ} {r : Runs} (k : SlotKey)
    → RunReach pause (no_runs clock) r
    → runs_of k r.active ≤ 1
one_run {pause} {clock} {r} k h = omega (arith, RunReach-IsExclusive h k, held_at-bound k r.slots)
