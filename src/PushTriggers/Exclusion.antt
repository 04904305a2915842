-- ===== src/PushTriggers/Exclusion.antt =====
-- One task of a pull request runs at a time, and the one that waits is woken, while no entry or
-- condition of the pull request is taken away.
use my_pr_agent.Prelude.{
  ◌+◌, ◌≤◌, ◌≡◌, sym, subst, ltb, nat_eq, Bool-cases, inl, inr, true, ◌==◌, arith,
}
use my_pr_agent.PushTriggers.{
  TriggerSettings, PushEvent, Triggers, no_triggers, active_tasks, enter, is_handled,
  handle_push_trigger_for_new_commits, notify, release, go_on, TriggerStep, TriggerReach, push,
  finish, resume, expire_entry, expire_condition, here, next, expiry_of, expiries,
}

-- The number of tasks is that of the three places, and none waits elsewhere; where there is one,
-- exactly one runs or is about to go on, and at most one waits.
abbrev pub IsOrderly : Triggers → Type 0
IsOrderly t =
    (active_tasks t.entry ≡ t.running + (t.woken + t.waiting))
    × ((t.running + t.woken ≤ 1)
        × ((t.waiting ≤ 1) × ((t.waiting ≤ t.running + t.woken) × (t.stranded ≡ 0))))

enter-IsOrderly : (s : TriggerSettings) (t : Triggers) → IsOrderly t → IsOrderly (enter s t)
unfolding enter
enter-IsOrderly s t (count, (one, (few, (led, found)))) = ground arith

handle-IsOrderly :
    (s : TriggerSettings) (e : PushEvent) (t : Triggers)
    → IsOrderly t
    → IsOrderly (handle_push_trigger_for_new_commits s e t)
unfolding handle_push_trigger_for_new_commits
handle-IsOrderly s e t h = elim (Bool-cases (is_handled s e)) [
  | inl passes ↦ rw (passes) (enter-IsOrderly s t h)
  | inr stops ↦ rw (stops) h
]

release-IsOrderly : (t : Triggers) → ltb 0 t.running ≡ true → IsOrderly t → IsOrderly (release t)
unfolding release notify
release-IsOrderly t runs (count, (one, (few, (led, found)))) = elim (Bool-cases (t.waiting == 0)) [
  | inl none_waits ↦ ground (arith, none_waits)
  | inr waits ↦ ground (arith, waits)
]

go_on-IsOrderly : (t : Triggers) → ltb 0 t.woken ≡ true → IsOrderly t → IsOrderly (go_on t)
unfolding go_on
go_on-IsOrderly t woken (count, (one, (few, (led, found)))) = ground arith

pub TriggerStep-IsOrderly :
    {s : TriggerSettings} {t u : Triggers} (st : TriggerStep s t u)
    → expiry_of st ≡ 0
    → IsOrderly t
    → IsOrderly u
TriggerStep-IsOrderly {s} {t} (push e eq) kept h =
    subst IsOrderly (sym eq) (handle-IsOrderly s e t h)
TriggerStep-IsOrderly {s} {t} (finish runs eq) kept h =
    subst IsOrderly (sym eq) (release-IsOrderly t runs h)
TriggerStep-IsOrderly {s} {t} (resume woken eq) kept h =
    subst IsOrderly (sym eq) (go_on-IsOrderly t woken h)
TriggerStep-IsOrderly (expire_entry eq) kept h = ground (arith, kept)
TriggerStep-IsOrderly (expire_condition eq) kept h = ground (arith, kept)

-- While neither the entry nor the condition of the pull request is taken away at the end of its
-- lifetime, whatever events arrive and whenever tasks end and go on: the number in the entry is that
-- of the tasks that run, were woken or wait; at most one runs or was woken and at most one waits,
-- and while one waits another runs or was woken.
pub TriggerReach-IsOrderly :
    {s : TriggerSettings} {t : Triggers} (r : TriggerReach s no_triggers t)
    → expiries r ≡ 0
    → IsOrderly t
TriggerReach-IsOrderly here kept =
    (omega arith, (omega arith, (omega arith, (omega arith, omega arith))))
TriggerReach-IsOrderly (next r st) kept =
    TriggerStep-IsOrderly st (omega (arith, kept)) (TriggerReach-IsOrderly r (omega (arith, kept)))
