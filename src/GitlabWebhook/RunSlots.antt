-- ===== src/GitlabWebhook/RunSlots.antt =====
-- The slots of `_perform_commands_gitlab`, by the key that an event gives: one run at a time for a
-- key, and a pause after each. Times are in whole ticks.
pub mod Apart
pub mod Exclusion
use my_pr_agent.Prelude.{
  ℕ, ◌+◌, ◌-◌, ◌≤◌, ◌≡◌, Bool, true, false, Option, none, some, List, [], ◌∷◌, ◌++◌, ltb, nat_eq,
  pair_eq, list_eq, if◌then◌else◌, map, ◌>>=◌,
}
use my_pr_agent.Text.{Text, codes, split_char, join}
use my_pr_agent.Dict.{Dict, get, put}

abbrev pub SlotKey : Type 0
SlotKey = Text × Text

-- `str(project_id or "")` of an id that is a text here.
abbrev pub or_empty : Option Text → Text
or_empty none = []
or_empty (some id) = id

abbrev pub mr_lock_key : Option Text → Option Text → SlotKey
mr_lock_key project_id mr_iid = (or_empty project_id, or_empty mr_iid)

-- The ids of an event that give its key: a push event has no number of a merge request.
pub record RunEvent : Type 0 where
  pub project_id : Option Text
  pub merge_request_iid : Option Text
  pub attributes_iid : Option Text

-- `a or b`
abbrev pub or_else_id : Option Text → Option Text → Option Text
or_else_id none b = b
or_else_id (some a) b = some a

unfoldable pub slot_of : RunEvent → SlotKey
slot_of e = mr_lock_key e.project_id (or_else_id e.merge_request_iid e.attributes_iid)

-- `_MR_RUN_LOCKS`, where a lock is whether it is held, and `_MR_LAST_RUN_FINISHED`.
pub record Slots : Type 0 where
  pub locks : Dict SlotKey Bool
  pub finished : Dict SlotKey ℕ

pub data Refusal : Type 0 where
  already_running : Refusal
  cooldown : ℕ → Refusal

-- Whether the lock is held, and the table with a new lock if there was none.
unfoldable pub get_mr_lock : SlotKey → Slots → Bool × Slots
unfolding get put
get_mr_lock key s = elim (get key s.locks) [
  | some held ↦ (held, s)
  | none ↦ (false, record s { locks = put key false s.locks })
]

-- `now - last < pause`
abbrev pub still_cooling : ℕ → ℕ → ℕ → Bool
still_cooling pause last now = ltb (now - last) pause

-- `none` allows the run.
unfoldable pub acquire_mr_run_slot : ℕ → SlotKey → ℕ → Slots → Option Refusal × Slots
unfolding get_mr_lock
acquire_mr_run_slot pause key now s =
    let (held, s) = get_mr_lock key s in
    if held then (some already_running, s) else elim (get key s.finished) [
      | none ↦ (none, s)
      | some last ↦
          (if still_cooling pause last now then some (cooldown (pause - (now - last))) else none, s)
    ]

unfoldable pub release_mr_run_slot : SlotKey → ℕ → Slots → Slots
unfolding put
release_mr_run_slot key now s = record s { finished = put key now s.finished }

-- `await _slot_lock.acquire()` of a lock that is free.
unfoldable pub take_lock : SlotKey → Slots → Slots
unfolding put
take_lock key s = record s { locks = put key true s.locks }

-- The `finally` block: the time of the end, and the lock if it is held.
unfoldable pub end_run : SlotKey → ℕ → Slots → Slots
unfolding release_mr_run_slot get_mr_lock
end_run key now s =
    let released = release_mr_run_slot key now s in
    let (held, _) = get_mr_lock key released in
    if held then record released { locks = put key false released.locks } else released

-- The slots, the clock and the keys of the runs that are under way, in no particular order. An
-- event loop runs one step at a time: there is no `await` between the check and the lock, which is
-- free then.
pub record Runs : Type 0 where
  pub slots : Slots
  pub clock : ℕ
  pub active : List SlotKey

abbrev pub no_runs : ℕ → Runs
no_runs clock = record { slots = record { locks = []; finished = [] }; clock = clock; active = [] }

pub data RunStep (pause : ℕ) (r u : Runs) : Type 0 where
  begin :
      (e : RunEvent) (now : ℕ)
      → r.clock ≤ now
      → (acquire_mr_run_slot pause (slot_of e) now r.slots).0 ≡ none
      → u.slots ≡ take_lock (slot_of e) (acquire_mr_run_slot pause (slot_of e) now r.slots).1
      → u.clock ≡ now
      → u.active ≡ slot_of e ∷ r.active
      → RunStep pause r u
  skip :
      (e : RunEvent) (now : ℕ) (why : Refusal)
      → r.clock ≤ now
      → (acquire_mr_run_slot pause (slot_of e) now r.slots).0 ≡ some why
      → u.slots ≡ (acquire_mr_run_slot pause (slot_of e) now r.slots).1
      → u.clock ≡ now
      → u.active ≡ r.active
      → RunStep pause r u
  finish :
      (before after : List SlotKey) (key : SlotKey) (now : ℕ)
      → r.clock ≤ now
      → r.active ≡ before ++ key ∷ after
      → u.slots ≡ end_run key now r.slots
      → u.clock ≡ now
      → u.active ≡ before ++ after
      → RunStep pause r u

pub data RunReach (pause : ℕ) (r : Runs) : Runs → Type 0 where
  here : RunReach pause r r
  next : {t u : Runs} → RunReach pause r t → RunStep pause t u → RunReach pause r u

-- The command that is run: `update_settings_from_args` is an argument.
unfoldable pub new_command : (List Text → Option (List Text)) → Text → Option Text
unfolding split_char join
new_command update command = elim (split_char b' ' command) [
  | [] ↦ none
  | name ∷ args ↦ update args >>= λ other_args. some (join (b' ' ∷ []) (name ∷ other_args))
]

-- The commands of one run, in order; one whose arguments are refused is left out.
unfoldable pub run_commands : (List Text → Option (List Text)) → List Text → List Text
unfolding new_command
run_commands update [] = []
run_commands update (command ∷ commands) =
    let rest = run_commands update commands in
    elim (new_command update command) [ none ↦ rest | some ready ↦ ready ∷ rest ]
