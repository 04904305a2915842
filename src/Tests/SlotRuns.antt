-- ===== src/Tests/SlotRuns.antt =====
-- A run, a delivery that is skipped while it is under way, and the pause behind it.
use my_pr_agent.Prelude.{◌+◌, ◌≤◌, ◌≡◌, refl, true, false, none, some, [], ◌∷◌, arith}
use my_pr_agent.Text.{codes}
use my_pr_agent.GitlabWebhook.RunSlots.{
  SlotKey, RunEvent, slot_of, acquire_mr_run_slot, take_lock, end_run, already_running, cooldown,
  Runs, no_runs, RunStep, begin, skip, finish, here, next, run_commands,
}
use my_pr_agent.GitlabWebhook.RunSlots.Apart.{runs_apart}
use my_pr_agent.GitlabWebhook.RunSlots.Exclusion.{runs_of, one_run}

abbrev k : SlotKey
k = (codes "1", codes "7")

-- An event of the merge request.
abbrev e : RunEvent
e = record {
  project_id = some (codes "1");
  merge_request_iid = none;
  attributes_iid = some (codes "7");
}

abbrev running : Runs
running = record {
  slots = record { locks = (k, true) ∷ []; finished = [] };
  clock = 5;
  active = k ∷ [];
}

given : slot_of e ≡ k
unfolding slot_of
given = refl

run_begins : RunStep 30 (no_runs 0) running
unfolding acquire_mr_run_slot take_lock slot_of
run_begins = begin e 5 (omega arith) refl refl refl refl

skipped : RunStep 30 running (record running { clock = 6 })
unfolding acquire_mr_run_slot slot_of
skipped = skip e 6 already_running (omega arith) refl refl refl refl

one_run_example : runs_of k (record running { clock = 6 }).active ≤ 1
one_run_example = one_run k (next (next here run_begins) skipped)

abbrev ended : Runs
ended = record {
  slots = record { locks = (k, false) ∷ []; finished = (k, 9) ∷ [] };
  clock = 9;
  active = [];
}

run_ends : RunStep 30 (record running { clock = 6 }) ended
unfolding end_run
run_ends = finish [] [] k 9 (omega arith) refl refl refl refl

cooling : (acquire_mr_run_slot 30 k 20 ended.slots).0 ≡ some (cooldown 19)
unfolding acquire_mr_run_slot
cooling = refl

end_written : ended.slots ≡ end_run k 9 running.slots
unfolding end_run
end_written = refl

allowed : (acquire_mr_run_slot 30 (slot_of e) 39 ended.slots).0 ≡ none
unfolding acquire_mr_run_slot slot_of
allowed = refl

runs_apart_example : 9 + 30 ≤ 39
runs_apart_example =
    runs_apart {pause = 30} {t = ended} running.slots e k 9 39 given end_written refl here
      (omega arith) allowed

commands_run :
    run_commands (λ args. some args) (codes "/review" ∷ codes "/improve --a=1" ∷ [])
    ≡ codes "/review" ∷ codes "/improve --a=1" ∷ []
unfolding run_commands
commands_run = refl

-- The push of an Apply commit to the same merge request runs beside the event.
abbrev pushed : RunEvent
pushed = record { project_id = some (codes "1"); merge_request_iid = none; attributes_iid = none }

abbrev both : Runs
both = record {
  slots = record { locks = (k, true) ∷ ((codes "1", []), true) ∷ []; finished = [] };
  clock = 6;
  active = (codes "1", []) ∷ k ∷ [];
}

push_runs_beside : RunStep 30 running both
unfolding acquire_mr_run_slot take_lock slot_of
push_runs_beside = begin pushed 6 (omega arith) refl refl refl refl
