-- ===== src/GitlabWebhook/ApplyEvents/Iterated.antt =====
-- Every Apply commit of a push is handled, each as its own event.
use my_pr_agent.Prelude.{
  ℕ, ◌≡◌, refl, sym, ◌∙◌, ap, inl, inr, Bool, true, false, Bool-cases, Option-cases, none, some,
  List, [], ◌∷◌, nat_eq, list_eq, list_beq_iff, ◌>>=◌, is_some, arith, map, keep,
}
use my_pr_agent.Text.{Text, codes, is_empty, strip}
use my_pr_agent.GitlabWebhook.ApplyEvents.{
  PushCommit, WebhookData, ApplyEvent, search_apply, last_apply, push_event, resolve_apply_event,
  listed, events_of, iter_apply_events, actor_of, files_hint_of,
}
use my_pr_agent.GitlabWebhook.ApplyEvents.Found.{search_apply-strip}

abbrev pub count_in : Text → ℕ
count_in message = elim (search_apply message) [ none ↦ 0 | some count ↦ count ]

-- The event of one commit of a push: its own sha, message, count and files, and what the push has
-- before it.
unfoldable pub commit_event : WebhookData → PushCommit → ApplyEvent
unfolding strip files_hint_of actor_of
commit_event d c = record {
  sha = c.id;
  parent_sha = d.before;
  msg = strip c.message;
  suggestion_count = count_in c.message;
  project_id = d.project_id;
  ref = some d.ref;
  mr_iid = none;
  actor = actor_of d;
  files_hint = files_hint_of c;
  pr_url = none;
}

abbrev pub is_apply : PushCommit → Bool
is_apply c = is_some (search_apply (strip c.message))

last_apply-single :
    (c : PushCommit) (n : ℕ) → search_apply c.message ≡ some n → last_apply (c ∷ []) ≡ some (c, n)
unfolding last_apply
last_apply-single c n e = rw (e, last_apply) refl

resolve_push :
    (d : WebhookData)
    → d.object_kind ≡ codes "push"
    → resolve_apply_event d
      ≡ (last_apply d.commits >>= λ found. some (push_event d found.0 found.1))
unfolding resolve_apply_event
resolve_push d kind =
    let pushed = (list_beq_iff nat_eq d.object_kind (codes "push")).1 kind in
    rw (pushed, resolve_apply_event) refl

push_event-commit :
    (d : WebhookData) (c : PushCommit) (n : ℕ)
    → search_apply c.message ≡ some n
    → push_event (record d { commits = c ∷ [] }) c n ≡ commit_event d c
unfolding push_event commit_event
push_event-commit d c n e =
    let counted : n ≡ count_in c.message = rw (e, count_in) refl in rw counted refl

resolve-single :
    (d : WebhookData) (c : PushCommit) (n : ℕ)
    → d.object_kind ≡ codes "push"
    → search_apply c.message ≡ some n
    → resolve_apply_event (record d { commits = c ∷ [] }) ≡ some (commit_event d c)
resolve-single d c n kind e =
    let one : WebhookData = record d { commits = c ∷ [] } in
    resolve_push one kind
    ∙ (ap (λ found. found >>= λ f. some (push_event one f.0 f.1)) (last_apply-single c n e)
        ∙ ap some (push_event-commit d c n e))

listed-single :
    (d : WebhookData) (c : PushCommit)
    → d.object_kind ≡ codes "push"
    → is_apply c ≡ true
    → listed (resolve_apply_event (record d { commits = c ∷ [] })) ≡ commit_event d c ∷ []
listed-single d c kind found = elim (Option-cases (search_apply c.message)) [
  | inr (n, e) ↦ ap listed (resolve-single d c n kind e)
  | inl missing ↦ cc (search_apply-strip c.message found, ap is_some missing)
]

keep-false :
    (c : PushCommit) (commits : List PushCommit)
    → is_apply c ≡ false
    → keep is_apply (c ∷ commits) ≡ keep is_apply commits
keep-false c commits e = rw (e, keep) refl

keep-true :
    (c : PushCommit) (commits : List PushCommit)
    → is_apply c ≡ true
    → keep is_apply (c ∷ commits) ≡ c ∷ keep is_apply commits
keep-true c commits e = rw (e, keep) refl

events_of-keep :
    (d : WebhookData) (commits : List PushCommit)
    → d.object_kind ≡ codes "push"
    → events_of d commits ≡ map (commit_event d) (keep is_apply commits)
unfolding events_of
events_of-keep d [] kind = refl
events_of-keep d (c ∷ commits) kind = elim (Bool-cases (is_apply c)) [
  | inr other ↦ rw (other, events_of, keep-false c commits other) (events_of-keep d commits kind)
  | inl found ↦
      rw (found, events_of, keep-true c commits found, listed-single d c kind found)
        (ap (λ t. commit_event d c ∷ t) (events_of-keep d commits kind))
]

empty_list : {A : Type 0} (xs : List A) → is_empty xs ≡ true → xs ≡ []
empty_list [] h = refl
empty_list (x ∷ xs) h = ground arith

none_resolved :
    (d : WebhookData) → d.object_kind ≡ codes "push" → d.commits ≡ [] → resolve_apply_event d ≡ none
unfolding last_apply
none_resolved d kind e =
    resolve_push d kind
    ∙ ap (λ cs. last_apply cs >>= λ found. some (push_event d found.0 found.1)) e

-- The events of a push are those of its commits with an Apply message, in their order, each with
-- its own sha, message, count and files; the parent of each is the commit before the push.
pub iter_apply_events-push :
    (d : WebhookData)
    → d.object_kind ≡ codes "push"
    → iter_apply_events d ≡ map (commit_event d) (keep is_apply d.commits)
unfolding iter_apply_events
iter_apply_events-push d kind = elim (Bool-cases (is_empty d.commits)) [
  | inl nothing ↦
      let e = empty_list d.commits nothing in
      rw (nothing, iter_apply_events)
        (ap listed (none_resolved d kind e)
          ∙ ap (λ cs. map (commit_event d) (keep is_apply cs)) (sym e))
  | inr some_there ↦ rw (some_there, iter_apply_events) (events_of-keep d d.commits kind)
]
