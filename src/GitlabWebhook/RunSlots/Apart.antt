-- ===== src/GitlabWebhook/RunSlots/Apart.antt =====
-- A pause lies between the end of a run and the next run with the same key.
use my_pr_agent.Prelude.{
  ℕ, ◌+◌, ◌≤◌, ◌≡◌, ◌↔◌, ◌∙◌, ap, refl, inl, inr, true, Bool-cases, none, some, arith, nat_eq,
  pair_eq, list_eq, pair_beq_iff, ◌==◌,
}
use my_pr_agent.Dict.{get, put, get-put}
use my_pr_agent.GitlabWebhook.RunSlots.{
  SlotKey, RunEvent, slot_of, Slots, get_mr_lock, acquire_mr_run_slot, release_mr_run_slot,
  take_lock, end_run, Runs, RunStep, begin, skip, finish, RunReach, here, next,
}

pub key_eq_iff : (a b : SlotKey) → ((a == b) ≡ true) ↔ (a ≡ b)
key_eq_iff = pair_beq_iff (list_eq {A = ℕ}) (list_eq {A = ℕ})

-- The table of end times behind each operation.
pub finished-acquire :
    (pause : ℕ) (key : SlotKey) (now : ℕ) (s : Slots)
    → (acquire_mr_run_slot pause key now s).1.finished ≡ s.finished
unfolding acquire_mr_run_slot get_mr_lock
finished-acquire pause key now s = ground arith

finished-end_run :
    (key : SlotKey) (now : ℕ) (s : Slots) → (end_run key now s).finished ≡ put key now s.finished
unfolding end_run release_mr_run_slot get_mr_lock
finished-end_run key now s = ground arith

finished-take_lock : (key : SlotKey) (s : Slots) → (take_lock key s).finished ≡ s.finished
unfolding take_lock
finished-take_lock key s = refl

-- The last run with the key ended at `a` or later.
record Ended (key : SlotKey) (a : ℕ) (r : Runs) : Type 0 where
  last : ℕ
  recorded : get key r.slots.finished ≡ some last
  later : a ≤ last
  past : last ≤ r.clock

-- A step that leaves the end times alone.
Ended-same :
    {r u : Runs} (key : SlotKey) (a : ℕ)
    → u.slots.finished ≡ r.slots.finished
    → r.clock ≤ u.clock
    → Ended key a r
    → Ended key a u
Ended-same key a same clock h = record {
  last = h.last;
  recorded = ap (get key) same ∙ h.recorded;
  later = h.later;
  past = omega (arith, h.past);
}

-- The end of a run.
Ended-put :
    {r u : Runs} (key k : SlotKey) (a now : ℕ)
    → u.slots.finished ≡ put k now r.slots.finished
    → r.clock ≤ now
    → u.clock ≡ now
    → Ended key a r
    → Ended key a u
Ended-put {r} key k a now written clock at h = elim (Bool-cases (k == key)) [
  | inl same ↦ record {
    last = now;
    recorded = ap (get key) written ∙ (get-put k key now r.slots.finished ∙ (rw same refl));
    later = omega (arith, h.past, h.later);
    past = omega arith;
  }
  | inr other ↦ record {
    last = h.last;
    recorded = ap (get key) written ∙ (get-put k key now r.slots.finished ∙ (rw other h.recorded));
    later = h.later;
    past = omega (arith, h.past);
  }
]

RunStep-Ended :
    {pause : ℕ} {r u : Runs} (key : SlotKey) (a : ℕ)
    → RunStep pause r u
    → Ended key a r
    → Ended key a u
RunStep-Ended {pause} {r} {u} key a (begin e now later free es ec ea) h =
    let k = slot_of e in
    Ended-same key a
      (ap (λ s. s.finished) es
        ∙ (finished-take_lock k (acquire_mr_run_slot pause k now r.slots).1
            ∙ finished-acquire pause k now r.slots))
      (omega arith) h
RunStep-Ended {pause} {r} {u} key a (skip e now why later refused es ec ea) h =
    Ended-same key a (ap (λ s. s.finished) es ∙ finished-acquire pause (slot_of e) now r.slots)
      (omega arith) h
RunStep-Ended {pause} {r} {u} key a (finish before after k now later mine es ec ea) h =
    Ended-put key k a now (ap (λ s. s.finished) es ∙ finished-end_run k now r.slots) later ec h

RunReach-Ended :
    {pause : ℕ} {r u : Runs} (key : SlotKey) (a : ℕ)
    → RunReach pause r u
    → Ended key a r
    → Ended key a u
RunReach-Ended key a here h = h
RunReach-Ended key a (next r st) h = RunStep-Ended key a st (RunReach-Ended key a r h)

-- A slot that is given is free, and the pause is over.
acquired :
    (pause : ℕ) (key : SlotKey) (now last : ℕ) (s : Slots)
    → (acquire_mr_run_slot pause key now s).0 ≡ none
    → get key s.finished ≡ some last
    → last ≤ now
    → last + pause ≤ now
unfolding acquire_mr_run_slot get_mr_lock
acquired pause key now last s free recorded past = ground (arith, free, recorded, past)

recorded-end_run : (key : SlotKey) (a : ℕ) (s : Slots) → get key (end_run key a s).finished ≡ some a
recorded-end_run key a s =
    let self = (key_eq_iff key key).1 refl in
    ap (get key) (finished-end_run key a s) ∙ (get-put key key a s.finished ∙ (rw self refl))

-- When a run with a key, a project and a number, has ended at `a`, whatever runs begin, are skipped
-- or end from then on, a run for an event that gives the same key is allowed at `now` only if the
-- pause has passed since `a`. A push event gives the project and no number, and so another key than
-- the events of the merge request.
pub runs_apart :
    {pause : ℕ} {t u : Runs} (s : Slots) (e : RunEvent) (key : SlotKey) (a now : ℕ)
    → slot_of e ≡ key
    → t.slots ≡ end_run key a s
    → t.clock ≡ a
    → RunReach pause t u
    → u.clock ≤ now
    → (acquire_mr_run_slot pause (slot_of e) now u.slots).0 ≡ none
    → a + pause ≤ now
runs_apart {pause} {t} {u} s e key a now given ended clock r later free =
    let h : Ended key a u = RunReach-Ended key a r (record {
      last = a;
      recorded = ap (λ r. get key r.finished) ended ∙ recorded-end_run key a s;
      later = omega arith;
      past = omega arith;
    }) in
    omega (
      arith,
      acquired pause (slot_of e) now h.last u.slots free
          (ap (λ k. get k u.slots.finished) given ∙ h.recorded) (omega (arith, h.past)),
      h.later,
    )
