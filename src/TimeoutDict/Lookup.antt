-- ===== src/TimeoutDict/Lookup.antt =====
-- The value of a key, which is always there where a factory is given.
use my_pr_agent.Prelude.{
  ℕ, ◌≡◌, refl, sym, ◌∙◌, ap, subst, inl, inr, Bool, true, false, Bool-cases, not, ◌&&◌, Option,
  Option-cases, none, some, is_some, ltb, Eq, ◌==◌, if◌then◌else◌, arith,
}
use my_pr_agent.Dict.{get, put, get-put, Distinct, Distinct-put}
use my_pr_agent.TimeoutDict.{
  TimeoutSettings, TimeoutDict, set_item, refresh, value_at, touch, get_item,
}
use my_pr_agent.TimeoutDict.Expiry.{is_expired, Held, Done, old_by, gone_by, refresh-Done}

abbrev pub or_default {κ} : {V : Type κ} → V → Option V → V
or_default d none = d
or_default d (some v) = v

-- A key that is used has not expired.
used_lives : (ttl now : ℕ) → is_expired ttl now (some now) ≡ false
used_lives ttl now = ground arith

expired-timed : (ttl now : ℕ) (o : Option ℕ) → is_expired ttl now o ≡ true → is_some o ≡ true
expired-timed ttl now (some time) h = refl
expired-timed ttl now none h = cc h

module _ {K : Type 0} {V : Type 0} ⦃e : Eq K⦄ where
  -- The keys that have a value are those that have a time, once each.
  abbrev pub IsInStep : TimeoutDict K V → Type 0
  IsInStep t =
      ((j : K) → is_some (get j t.entries) ≡ is_some (get j t.key_times)) × Distinct t.key_times

  -- Whether the access itself takes the key away: it has expired, a refresh is due, and the access
  -- does not count as a use.
  unfoldable pub is_stale : TimeoutSettings V → ℕ → K → TimeoutDict K V → Bool
  unfolding get
  is_stale s now k t = not s.update_key_time_on_get && gone_by s now t k

  -- A state whose keys are in step but for one, which may have a time and no value.
  abbrev InStepBut : K → TimeoutDict K V → Type 0
  InStepBut k t =
      ((j : K) → (k == j) ≡ false → is_some (get j t.entries) ≡ is_some (get j t.key_times))
      × ((is_some (get k t.entries) ≡ true → is_some (get k t.key_times) ≡ true)
          × Distinct t.key_times)

  set_item-IsInStep :
      (now : ℕ) (k : K) (v : V) (t : TimeoutDict K V)
      → InStepBut k t
      → IsInStep (set_item now k v t)
  unfolding set_item
  set_item-IsInStep now k v t (others, (own, d)) = (
    λ j. elim (Bool-cases (k == j)) [
      | inl same ↦
          let valued : get j (put k v t.entries) ≡ some v =
            get-put k j v t.entries ∙ rw same refl in
          let timed : get j (put k now t.key_times) ≡ some now =
            get-put k j now t.key_times ∙ rw same refl in
          ap is_some valued ∙ sym (ap is_some timed)
      | inr apart ↦
          let valued : get j (put k v t.entries) ≡ get j t.entries =
            get-put k j v t.entries ∙ rw apart refl in
          let timed : get j (put k now t.key_times) ≡ get j t.key_times =
            get-put k j now t.key_times ∙ rw apart refl in
          ap is_some valued ∙ (others j apart ∙ sym (ap is_some timed))
    ],
    Distinct-put k now t.key_times d,
  )

  IsInStep-InStepBut : (k : K) (t : TimeoutDict K V) → IsInStep t → InStepBut k t
  IsInStep-InStepBut k t (h, d) = ((λ j apart. h j), ((λ u. sym (h k) ∙ u), d))

  -- The value, and a state in step.
  abbrev pub Answers : V → TimeoutDict K V × Option V → Type 0
  Answers v r = (r.1 ≡ some v) × IsInStep r.0

  value_at-Answers :
      (s : TimeoutSettings V) (now : ℕ) (k : K) (t : TimeoutDict K V) (d : V)
      → s.default_factory ≡ some d
      → InStepBut k t
      → Answers (or_default d (get k t.entries)) (value_at s now k (t, true))
  unfolding value_at
  value_at-Answers s now k t d factory (others, (own, distinct)) =
      elim (Option-cases (get k t.entries)) [
        | inl absent ↦
            rw (absent, factory, value_at)
              (refl, set_item-IsInStep now k d t (others, (own, distinct)))
        | inr (v, there) ↦
            rw (there, value_at)
              (
                refl,
                (
                  λ j. elim (Bool-cases (k == j)) [
                    | inl same ↦
                        let at : is_some (get k t.entries) ≡ is_some (get k t.key_times) =
                          ap is_some there ∙ sym (own (ap is_some there)) in
                        subst (λ i. is_some (get i t.entries) ≡ is_some (get i t.key_times))
                          ((e.same_iff k j).0 same) at
                    | inr apart ↦ others j apart
                  ],
                  distinct,
                ),
              )
      ]

  touch-times :
      (s : TimeoutSettings V) (now : ℕ) (k j : K) (t : TimeoutDict K V)
      → get j (touch s now k t).key_times
        ≡ (if s.update_key_time_on_get && k == j then some now else get j t.key_times)
  unfolding touch
  touch-times s now k j t = elim (Bool-cases s.update_key_time_on_get) [
    | inl updates ↦ rw (updates) (get-put k j now t.key_times)
    | inr keeps ↦ rw (keeps) refl
  ]

  touch-entries :
      (s : TimeoutSettings V) (now : ℕ) (k : K) (t : TimeoutDict K V)
      → ((touch s now k t).entries ≡ t.entries) × ((touch s now k t).refresh_due ≡ t.refresh_due)
  unfolding touch
  touch-entries s now k t = elim (Bool-cases s.update_key_time_on_get) [
    | inl updates ↦ rw (updates) (refl, refl)
    | inr keeps ↦ rw (keeps) (refl, refl)
  ]

  touch-Distinct :
      (s : TimeoutSettings V) (now : ℕ) (k : K) (t : TimeoutDict K V)
      → Distinct t.key_times
      → Distinct (touch s now k t).key_times
  unfolding touch
  touch-Distinct s now k t d = elim (Bool-cases s.update_key_time_on_get) [
    | inl updates ↦ rw (updates) (Distinct-put k now t.key_times d)
    | inr keeps ↦ rw (keeps) d
  ]

  touch-Held :
      (s : TimeoutSettings V) (now : ℕ) (k : K) (t : TimeoutDict K V)
      → IsInStep t
      → (ttl : ℕ) → Held (old_by ttl now (touch s now k t).key_times) (touch s now k t)
  touch-Held s now k t (h, d) ttl j old =
      let (same, due) = touch-entries s now k t in
      let timed = expired-timed ttl now (get j (touch s now k t).key_times) old in
      elim (Bool-cases (s.update_key_time_on_get && k == j)) [
        | inl used ↦
            let at : get j (touch s now k t).key_times ≡ some now =
              touch-times s now k j t ∙ rw (used) refl in
            cc (sym old ∙ (ap (is_expired ttl now) at ∙ used_lives ttl now))
        | inr other ↦
            let at : get j (touch s now k t).key_times ≡ get j t.key_times =
              touch-times s now k j t ∙ rw (other) refl in
            (timed, ap (λ u. is_some (get j u)) same ∙ (h j ∙ (sym (ap is_some at) ∙ timed)))
      ]

  gone_by-stale :
      (s : TimeoutSettings V) (now : ℕ) (k : K) (t : TimeoutDict K V)
      → gone_by s now (touch s now k t) k ≡ is_stale s now k t
  unfolding is_stale touch
  gone_by-stale s now k t = elim (Bool-cases s.update_key_time_on_get) [
    | inr keeps ↦ rw (keeps) refl
    | inl updates ↦ elim (Option-cases s.ttl) [
      | inl absent ↦ rw (updates, absent) refl
      | inr (ttl, given) ↦
          let at : get k (put k now t.key_times) ≡ some now =
            get-put k k now t.key_times ∙ rw ((e.same_iff k k).1 refl) refl in
          let lives : old_by ttl now (put k now t.key_times) k ≡ false =
            ap (is_expired ttl now) at ∙ used_lives ttl now in
          rw (updates, given, lives)
            (elim (Bool-cases (ltb now t.refresh_due)) [
              | inl early ↦ rw (early) refl
              | inr due ↦ rw (due) refl
            ])
    ]
  ]

  Done-InStepBut :
      (s : TimeoutSettings V) (now : ℕ) (k : K) (t : TimeoutDict K V) (old : K → Bool)
      (r : TimeoutDict K V × Bool)
      → IsInStep t
      → Done old (touch s now k t) r
      → InStepBut k r.0
  Done-InStepBut s now k t old r (h, d) (done, (entries, (times, distinct))) = (
    (λ j apart. elim (Bool-cases (old j)) [
      | inl gone ↦
          let valueless : get j r.0.entries ≡ none = entries j ∙ rw (gone) refl in
          let timeless : get j r.0.key_times ≡ none = times j ∙ rw (gone) refl in
          ap is_some valueless ∙ sym (ap is_some timeless)
      | inr left ↦
          let valued : get j r.0.entries ≡ get j (touch s now k t).entries =
            entries j ∙ rw (left) refl in
          let timed : get j r.0.key_times ≡ get j (touch s now k t).key_times =
            times j ∙ rw (left) refl in
          ground (
            arith,
            ap is_some valued,
            ap is_some timed,
            h j,
            ap (λ u. is_some (get j u)) (touch-entries s now k t).0,
            ap is_some (touch-times s now k j t),
            apart,
          )
    ]),
    (
      (λ there. elim (Bool-cases (old k)) [
        | inl gone ↦
            let valueless : get k r.0.entries ≡ none = entries k ∙ rw (gone) refl in
            cc (sym there ∙ ap is_some valueless)
        | inr left ↦
            let valued : get k r.0.entries ≡ get k (touch s now k t).entries =
              entries k ∙ rw (left) refl in
            let timed : get k r.0.key_times ≡ get k (touch s now k t).key_times =
              times k ∙ rw (left) refl in
            ground (
              arith,
              ap is_some valued,
              ap is_some timed,
              h k,
              ap (λ u. is_some (get k u)) (touch-entries s now k t).0,
              ap is_some (touch-times s now k k t),
              there,
            )
      ]),
      distinct (touch-Distinct s now k t d),
    ),
  )

  value_at-true :
      (s : TimeoutSettings V) (now : ℕ) (k : K) (r : TimeoutDict K V × Bool) (d : V)
      → s.default_factory ≡ some d
      → r.1 ≡ true
      → InStepBut k r.0
      → Answers (or_default d (get k r.0.entries)) (value_at s now k r)
  value_at-true s now k (t, true) d factory done h = value_at-Answers s now k t d factory h
  value_at-true s now k (t, false) d factory done h = cc done

  -- With a factory and keys in step, an access raises nothing: it gives the value of the key, or the
  -- default where there is none or the key has expired, a refresh is due and an access does not count
  -- as a use; and the keys stay in step.
  pub get_item-Answers :
      (s : TimeoutSettings V) (now : ℕ) (k : K) (t : TimeoutDict K V) (d : V)
      → s.default_factory ≡ some d
      → IsInStep t
      → Answers
          (or_default d (if is_stale s now k t then none else get k t.entries))
          (get_item s now k t)
  unfolding get_item
  get_item-Answers s now k t d factory h =
      let u = touch s now k t in
      let outcome = refresh-Done s now u (touch-Distinct s now k t h.1) (touch-Held s now k t h) in
      let value : get k (refresh s now u).0.entries
          ≡ (if is_stale s now k t then none else get k t.entries) =
        outcome.1.0 k
        ∙ (ap (λ b. if b then none else get k u.entries) (gone_by-stale s now k t)
            ∙ ap (λ v. if is_stale s now k t then none else get k v) (touch-entries s now k t).0) in
      subst (λ o. Answers (or_default d o) (value_at s now k (refresh s now u))) value
        (value_at-true s now k (refresh s now u) d factory outcome.0
          (Done-InStepBut s now k t (gone_by s now u) (refresh s now u) h outcome))
