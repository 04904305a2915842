-- ===== src/TimeoutDict/Expiry.antt =====
-- What a refresh takes away.
use my_pr_agent.Prelude.{
  ℕ, ◌-◌, ◌≡◌, refl, sym, ◌∙◌, ap, inl, inr, Bool, true, false, Bool-cases, not, ◌&&◌, Option,
  Option-cases, none, some, is_some, [], ◌∷◌, ltb, Eq, ◌==◌, if◌then◌else◌,
}
use my_pr_agent.Dict.{Dict, get, remove, get-remove, Distinct, Distinct-remove}
use my_pr_agent.TimeoutDict.{
  TimeoutSettings, TimeoutDict, expired_keys, del_item, del_items, refresh,
}

-- Whether the time of a key has passed.
abbrev pub is_expired : ℕ → ℕ → Option ℕ → Bool
is_expired ttl now none = false
is_expired ttl now (some time) = ltb ttl (now - time)

module _ {K : Type 0} ⦃e : Eq K⦄ where
  -- What is left are the entries whose keys do not have the property.
  abbrev pub Left : {A : Type 0} → (K → Bool) → Dict K A → Dict K A → Type 0
  Left old before after = (j : K) → get j after ≡ (if old j then none else get j before)

  -- The keys of the times, those that have expired.
  abbrev pub old_by : ℕ → ℕ → Dict K ℕ → K → Bool
  old_by ttl now times j = is_expired ttl now (get j times)

  old_by-live :
      (ttl now : ℕ) (k : K) (time : ℕ) (times : Dict K ℕ)
      → get k times ≡ none
      → ltb ttl (now - time) ≡ false
      → (j : K) → old_by ttl now times j ≡ old_by ttl now ((k, time) ∷ times) j
  unfolding get
  old_by-live ttl now k time times fresh lives j = elim (Bool-cases (k == j)) [
    | inl same ↦
        let here : get j times ≡ none =
          ap (λ i. get i times) (sym ((e.same_iff k j).0 same)) ∙ fresh in
        rw (here, same, lives) refl
    | inr other ↦ rw (other) refl
  ]

  old_by-passed :
      (ttl now : ℕ) (k : K) (time : ℕ) (times : Dict K ℕ)
      → ltb ttl (now - time) ≡ true
      → (j : K)
      → old_by ttl now ((k, time) ∷ times) j ≡ (if k == j then true else old_by ttl now times j)
  unfolding get
  old_by-passed ttl now k time times passed j = elim (Bool-cases (k == j)) [
    | inl same ↦ rw (same, passed) refl
    | inr other ↦ rw (other) refl
  ]

  Left-remove :
      {A : Type 0} (k : K) (old : K → Bool) (before after : Dict K A)
      → Left old (remove k before) after
      → Left (λ j. if k == j then true else old j) before after
  Left-remove k old before after h j = elim (Bool-cases (k == j)) [
    | inl same ↦
        let gone : get j (remove k before) ≡ none = get-remove k j before ∙ rw same refl in
        rw (same) (h j ∙ elim (Bool-cases (old j)) [ inl o ↦ rw (o) refl | inr o ↦ rw (o) gone ])
    | inr other ↦
        let kept : get j (remove k before) ≡ get j before = get-remove k j before ∙ rw other refl in
        rw (other) (h j ∙ ap (λ u. if old j then none else u) kept)
  ]

module _ {K : Type 0} {V : Type 0} ⦃e : Eq K⦄ where
  -- The keys with the property are there.
  abbrev pub Held : (K → Bool) → TimeoutDict K V → Type 0
  Held old t =
      (j : K)
      → old j ≡ true
      → (is_some (get j t.key_times) ≡ true) × (is_some (get j t.entries) ≡ true)

  abbrev pub Done : (K → Bool) → TimeoutDict K V → TimeoutDict K V × Bool → Type 0
  Done old t r =
      (r.1 ≡ true)
      × (Left old t.entries r.0.entries
          × (Left old t.key_times r.0.key_times × (Distinct t.key_times → Distinct r.0.key_times)))

  del_item-there :
      (k : K) (t : TimeoutDict K V)
      → is_some (get k t.key_times) ≡ true
      → is_some (get k t.entries) ≡ true
      → del_item k t
        ≡ (record t { key_times = remove k t.key_times; entries = remove k t.entries }, true)
  unfolding del_item
  del_item-there k t timed there = rw (timed, there) refl

  Done-cong :
      (old new : K → Bool) (t : TimeoutDict K V) (r : TimeoutDict K V × Bool)
      → ((j : K) → old j ≡ new j)
      → Done old t r
      → Done new t r
  Done-cong old new t r same (done, (entries, (key_times, distinct))) = (
    done,
    (
      λ j. entries j ∙ ap (λ b. if b then none else get j t.entries) (same j),
      (λ j. key_times j ∙ ap (λ b. if b then none else get j t.key_times) (same j), distinct),
    ),
  )

  Held-gone :
      (ttl now : ℕ) (k : K) (time : ℕ) (times : Dict K ℕ) (t gone : TimeoutDict K V)
      → get k times ≡ none
      → ltb ttl (now - time) ≡ true
      → gone ≡ record t { key_times = remove k t.key_times; entries = remove k t.entries }
      → Held (old_by ttl now ((k, time) ∷ times)) t
      → Held (old_by ttl now times) gone
  Held-gone ttl now k time times t gone fresh passed eq h j o = elim (Bool-cases (k == j)) [
    | inl same ↦
        let here : get j times ≡ none =
          ap (λ i. get i times) (sym ((e.same_iff k j).0 same)) ∙ fresh in
        let never : old_by ttl now times j ≡ false = ap (is_expired ttl now) here in cc (never, o)
    | inr other ↦
        let (timed, there) = h j (old_by-passed ttl now k time times passed j ∙ rw (other) o) in
        let times_kept : get j gone.key_times ≡ get j t.key_times =
          ap (λ u. get j u.key_times) eq ∙ (get-remove k j t.key_times ∙ rw other refl) in
        let kept : get j gone.entries ≡ get j t.entries =
          ap (λ u. get j u.entries) eq ∙ (get-remove k j t.entries ∙ rw other refl) in
        (ap is_some times_kept ∙ timed, ap is_some kept ∙ there)
  ]

  expired_keys-Done :
      (ttl now : ℕ) (times : Dict K ℕ) (t : TimeoutDict K V)
      → Distinct times
      → Held (old_by ttl now times) t
      → Done (old_by ttl now times) t (del_items (expired_keys ttl now times) t)
  unfolding expired_keys del_items get
  expired_keys-Done ttl now [] t d h = (refl, (λ j. refl, (λ j. refl, λ u. u)))
  expired_keys-Done ttl now ((k, time) ∷ times) t (fresh, d) h =
      elim (Bool-cases (ltb ttl (now - time))) [
        | inl passed ↦
            let (timed, there) =
              h k
                (old_by-passed ttl now k time times passed k ∙ rw ((e.same_iff k k).1 refl) refl) in
            let gone : TimeoutDict K V = record t {
              key_times = remove k t.key_times;
              entries = remove k t.entries;
            } in
            let one : del_item k t ≡ (gone, true) = del_item-there k t timed there in
            let (done, (entries, (key_times, distinct))) =
              expired_keys-Done ttl now times gone d
                (Held-gone ttl now k time times t gone fresh passed refl h) in
            rw (passed, one)
              (Done-cong (λ j. if k == j then true else old_by ttl now times j)
                (old_by ttl now ((k, time) ∷ times)) t (del_items (expired_keys ttl now times) gone)
                (λ j. sym (old_by-passed ttl now k time times passed j))
                (
                  done,
                  (
                    Left-remove k (old_by ttl now times) t.entries _ entries,
                    (
                      Left-remove k (old_by ttl now times) t.key_times _ key_times,
                      λ u. distinct (Distinct-remove k t.key_times u),
                    ),
                  ),
                ))
        | inr lives ↦ rw (lives) (
            Done-cong (old_by ttl now times) (old_by ttl now ((k, time) ∷ times)) t
              (del_items (expired_keys ttl now times) t)
              (old_by-live ttl now k time times fresh lives)
              (expired_keys-Done ttl now times t d
                (λ j o. h j (sym (old_by-live ttl now k time times fresh lives j) ∙ o))))
      ]

  -- The keys that a refresh takes away.
  abbrev pub gone_by : TimeoutSettings V → ℕ → TimeoutDict K V → K → Bool
  gone_by s now t j = elim s.ttl [
    | none ↦ false
    | some ttl ↦ not (ltb now t.refresh_due) && old_by ttl now t.key_times j
  ]

  Done-none : (t : TimeoutDict K V) → Done (λ j. false) t (t, true)
  Done-none t = (refl, (λ j. refl, (λ j. refl, λ u. u)))

  -- Where the keys of the times are there, a refresh raises nothing and takes away those that have
  -- expired.
  pub refresh-Done :
      (s : TimeoutSettings V) (now : ℕ) (t : TimeoutDict K V)
      → Distinct t.key_times
      → ((ttl : ℕ) → Held (old_by ttl now t.key_times) t)
      → Done (gone_by s now t) t (refresh s now t)
  unfolding refresh
  refresh-Done s now t d h = elim (Option-cases s.ttl) [
    | inl absent ↦ rw (absent) (Done-none t)
    | inr (ttl, given) ↦ rw (given) (elim (Bool-cases (ltb now t.refresh_due)) [
      | inl early ↦ rw (early) (Done-none t)
      | inr due ↦
          let (done, rest) = expired_keys-Done ttl now t.key_times t d (h ttl) in
          rw (due, done) (refl, rest)
    ])
  ]
