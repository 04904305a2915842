-- ===== src/Dict/Entries.antt =====
-- Properties of all entries of a dictionary, and what they become under its operations.
use my_pr_agent.Prelude.{◌≡◌, Bool-cases, inl, inr, some, arith, Eq, ◌==◌, subst}
use my_pr_agent.Dict.{Dict, get, put, remove, get-put, get-remove}

-- Every entry that can be looked up has the property.
abbrev pub Everywhere {ℓ κ ι} :
    {K : Type ℓ} {V : Type κ} ⦃e : Eq K⦄ → (K → V → Type ι) → Dict K V → Type (ℓ ⊔ κ ⊔ ι)
Everywhere {K} {V} R m = (k : K) (v : V) → get k m ≡ some v → R k v

module _ {ℓ κ ι} {K : Type ℓ} {V : Type κ} ⦃e : Eq K⦄ {R : K → V → Type ι} where
  pub Everywhere-put :
      (k : K) (v : V) (m : Dict K V) → R k v → Everywhere R m → Everywhere R (put k v m)
  Everywhere-put k v m new old j w h = elim (Bool-cases (k == j)) [
    | inl same ↦
        let equal : v ≡ w = ground (arith, get-put k j v m) in
        subst (λ i. R i w) ((e.same_iff k j).0 same) (subst (R k) equal new)
    | inr other ↦ old j w (ground (arith, get-put k j v m))
  ]

  pub Everywhere-remove : (k : K) (m : Dict K V) → Everywhere R m → Everywhere R (remove k m)
  Everywhere-remove k m old j w h = old j w (ground (arith, get-remove k j m))
