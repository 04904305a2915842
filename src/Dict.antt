-- ===== src/Dict.antt =====
-- Python's `dict`: entries in the order of first insertion, one for each key.
pub mod Entries
use my_pr_agent.Prelude.{
  ◌≡◌, refl, Bool, Option, none, some, List, [], ◌∷◌, arith, Eq, ◌==◌, if◌then◌else◌,
}

abbrev pub Dict {ℓ κ} : Type ℓ → Type κ → Type (ℓ ⊔ κ)
Dict K V = List (K × V)

abbrev pub kept {κ} : {V : Type κ} → (V → Bool) → Option V → Option V
kept p none = none
kept p (some v) = if p v then some v else none

module _ {ℓ κ} {K : Type ℓ} {V : Type κ} where
  -- The entries whose value passes the test.
  unfoldable pub retain : (V → Bool) → Dict K V → Dict K V
  retain p [] = []
  retain p ((j, v) ∷ m) = let rest = retain p m in if p v then (j, v) ∷ rest else rest

module _ {ℓ κ} {K : Type ℓ} {V : Type κ} ⦃e : Eq K⦄ where
  -- `m.get(k)`
  unfoldable pub get : K → Dict K V → Option V
  get k [] = none
  get k ((j, v) ∷ m) = if j == k then some v else get k m

  -- `m[k] = v` keeps the place of a key that is there.
  unfoldable pub put : K → V → Dict K V → Dict K V
  put k v [] = (k, v) ∷ []
  put k v ((j, w) ∷ m) = if j == k then (j, v) ∷ m else (j, w) ∷ put k v m

  -- `m.pop(k, None)`
  unfoldable pub remove : K → Dict K V → Dict K V
  remove k [] = []
  remove k ((j, v) ∷ m) = let rest = remove k m in if j == k then rest else (j, v) ∷ rest

  -- No key stands twice.
  abbrev pub Distinct : Dict K V → Type κ
  Distinct [] = Unit
  Distinct ((j, v) ∷ m) = (get j m ≡ none) × Distinct m

  pub get-put :
      (k j : K) (v : V) (m : Dict K V) → get j (put k v m) ≡ (if k == j then some v else get j m)
  unfolding get put
  get-put k j v [] = refl
  get-put k j v ((i, w) ∷ m) =
      ground (arith, e.same_iff k j, e.same_iff i k, e.same_iff i j, get-put k j v m)

  pub get-remove :
      (k j : K) (m : Dict K V) → get j (remove k m) ≡ (if k == j then none else get j m)
  unfolding get remove
  get-remove k j [] = ground arith
  get-remove k j ((i, w) ∷ m) =
      ground (arith, e.same_iff k j, e.same_iff i k, e.same_iff i j, get-remove k j m)

  pub get-retain :
      (p : V → Bool) (k : K) (m : Dict K V) → Distinct m → get k (retain p m) ≡ kept p (get k m)
  unfolding get retain
  get-retain p k [] d = refl
  get-retain p k ((i, w) ∷ m) (fresh, d) = ground (arith, e.same_iff i k, get-retain p k m d)

  pub Distinct-put : (k : K) (v : V) (m : Dict K V) → Distinct m → Distinct (put k v m)
  unfolding put get
  Distinct-put k v [] d = (refl, d)
  Distinct-put k v ((i, w) ∷ m) (fresh, d) =
      ground (arith, e.same_iff i k, get-put k i v m, e.same_iff k i, Distinct-put k v m d)

  pub Distinct-remove : (k : K) (m : Dict K V) → Distinct m → Distinct (remove k m)
  unfolding remove get
  Distinct-remove k [] d = tt
  Distinct-remove k ((i, w) ∷ m) (fresh, d) =
      ground (arith, e.same_iff i k, get-remove k i m, Distinct-remove k m d)

  pub Distinct-retain : (p : V → Bool) (m : Dict K V) → Distinct m → Distinct (retain p m)
  unfolding retain get
  Distinct-retain p [] d = tt
  Distinct-retain p ((i, w) ∷ m) (fresh, d) =
      ground (arith, get-retain p i m d, Distinct-retain p m d)

pub ruleset dict_laws = (get-put, get-remove)
