-- ===== src/PushTriggers/Drained.antt =====
-- No task of a pull request is left behind.
use my_pr_agent.Prelude.{
  ℕ, zero, suc, ◌+◌, ◌≡◌, refl, ap, ltb, nat_eq, Bool-cases, inl, inr, true, false, ◌==◌, arith,
}
use my_pr_agent.PushTriggers.{
  TriggerSettings, Triggers, no_triggers, active_tasks, notify, release, go_on, TriggerReach,
  finish, resume, expiries,
}
use my_pr_agent.PushTriggers.Exclusion.{IsOrderly, TriggerReach-IsOrderly, TriggerStep-IsOrderly}

-- The states that ends of tasks and tasks that go on lead to, without a new
-- event and with nothing taken away.
pub data Settles : Triggers → Triggers → Type 0 where
  settled : {t : Triggers} → Settles t t
  ends : {t u : Triggers} → ltb 0 t.running ≡ true → Settles (release t) u → Settles t u
  goes_on : {t u : Triggers} → ltb 0 t.woken ≡ true → Settles (go_on t) u → Settles t u

-- All tasks end.
abbrev pub Drains : Triggers → Type 0
Drains t = (u : Triggers) × (Settles t u × (u.running + (u.woken + (u.waiting + u.stranded)) ≡ 0))

release-fewer :
    (t : Triggers)
    → ltb 0 t.running ≡ true
    → IsOrderly t
    → active_tasks (release t).entry + 1 ≡ active_tasks t.entry
unfolding release notify
release-fewer t runs (count, (one, (few, (led, found)))) = elim (Bool-cases (t.waiting == 0)) [
  | inl none_waits ↦ ground (arith, none_waits)
  | inr waits ↦ ground (arith, waits)
]

-- The task that was woken goes on and ends.
go_on-runs : (t : Triggers) → ltb 0 (go_on t).running ≡ true
unfolding go_on
go_on-runs t = ground arith

go_on-entry : (t : Triggers) → (go_on t).entry ≡ t.entry
unfolding go_on
go_on-entry t = refl

woken_else :
    (t : Triggers) (n : ℕ)
    → active_tasks t.entry ≡ suc n
    → ltb 0 t.running ≡ false
    → IsOrderly t
    → ltb 0 t.woken ≡ true
woken_else t n e idle (count, (one, (few, (led, found)))) = ground (arith, e, idle, count, led)

drain :
    (s : TriggerSettings) (n : ℕ) (t : Triggers) → active_tasks t.entry ≡ n → IsOrderly t → Drains t
drain s zero t e (count, (one, (few, (led, found)))) =
    (t, (settled, omega (arith, e, count, found)))
drain s (suc n) t e h = elim (Bool-cases (ltb 0 t.running)) [
  | inl runs ↦
      let (u, (path, rest)) =
        drain s n (release t) (omega (arith, release-fewer t runs h, e))
          (TriggerStep-IsOrderly {s = s} (finish runs refl) refl h) in
      (u, (ends runs path, rest))
  | inr idle ↦
      let woken = woken_else t n e idle h in
      let h' : IsOrderly (go_on t) = TriggerStep-IsOrderly {s = s} (resume woken refl) refl h in
      let runs = go_on-runs t in
      let (u, (path, rest)) =
        drain s n (release (go_on t))
          (omega (arith, release-fewer (go_on t) runs h', e, ap active_tasks (go_on-entry t)))
          (TriggerStep-IsOrderly {s = s} (finish runs refl) refl h') in
      (u, (goes_on woken (ends runs path), rest))
]

-- From every state that events, ends of tasks and tasks that go on lead to, where neither the entry
-- nor the condition of the pull request was taken away at the end of its lifetime, ends and tasks
-- that go on alone, with nothing taken away either, lead to one without a task.
pub TriggerReach-Settles :
    {s : TriggerSettings} {t : Triggers} (r : TriggerReach s no_triggers t)
    → expiries r ≡ 0
    → Drains t
TriggerReach-Settles {s} {t} r kept =
    drain s (active_tasks t.entry) t refl (TriggerReach-IsOrderly r kept)
