-- ===== src/TimeoutDict.antt =====
-- pr_agent/servers/utils.py: `DefaultDictWithTimeout`, a dictionary whose keys live for a time.
pub mod Expiry
pub mod Lookup
use my_pr_agent.Prelude.{
  ℕ, ◌+◌, ◌-◌, Bool, true, false, Option, none, some, is_some, List, [], ◌∷◌, ltb, Eq,
  if◌then◌else◌,
}
use my_pr_agent.Dict.{Dict, get, put, remove}

-- The default value is that of the factory. Each call has one time, an argument of it.
pub record TimeoutSettings {κ} (V : Type κ) : Type κ where
  pub default_factory : Option V
  pub ttl : Option ℕ
  pub refresh_interval : ℕ
  pub update_key_time_on_get : Bool

-- The next refresh is due an interval after the last one, at first at once.
pub record TimeoutDict {ℓ κ} (K : Type ℓ) (V : Type κ) : Type (ℓ ⊔ κ) where
  pub entries : Dict K V
  pub key_times : Dict K ℕ
  pub refresh_due : ℕ

module _ {ℓ κ} {K : Type ℓ} {V : Type κ} where
  abbrev pub no_keys : ℕ → TimeoutDict K V
  no_keys now = record { entries = []; key_times = []; refresh_due = now }

module _ {ℓ} {K : Type ℓ} where
  -- The keys whose time has passed.
  unfoldable pub expired_keys : ℕ → ℕ → Dict K ℕ → List K
  expired_keys ttl now [] = []
  expired_keys ttl now ((k, time) ∷ times) =
      let rest = expired_keys ttl now times in if ltb ttl (now - time) then k ∷ rest else rest

module _ {ℓ κ} {K : Type ℓ} {V : Type κ} ⦃e : Eq K⦄ where
  unfoldable pub set_item : ℕ → K → V → TimeoutDict K V → TimeoutDict K V
  unfolding put
  set_item now k v t = record t { entries = put k v t.entries; key_times = put k now t.key_times }

  -- What is left, and whether no `KeyError` was raised: the time goes first.
  unfoldable pub del_item : K → TimeoutDict K V → TimeoutDict K V × Bool
  unfolding get remove
  del_item k t =
      let timeless : TimeoutDict K V = record t { key_times = remove k t.key_times } in
      let gone : TimeoutDict K V = record timeless { entries = remove k t.entries } in
      if is_some (get k t.key_times)
      then (if is_some (get k t.entries) then (gone, true) else (timeless, false))
      else (t, false)

  unfoldable pub del_items : List K → TimeoutDict K V → TimeoutDict K V × Bool
  unfolding del_item
  del_items [] t = (t, true)
  del_items (k ∷ keys) t =
      let one = del_item k t in let rest = del_items keys one.0 in if one.1 then rest else one

  -- The next refresh is set only where no error was raised.
  unfoldable pub refresh : TimeoutSettings V → ℕ → TimeoutDict K V → TimeoutDict K V × Bool
  unfolding expired_keys del_items
  refresh s now t = elim s.ttl [
    | none ↦ (t, true)
    | some ttl ↦
        let left = del_items (expired_keys ttl now t.key_times) t in
        let again : TimeoutDict K V = record left.0 { refresh_due = now + s.refresh_interval } in
        if ltb now t.refresh_due then (t, true) else if left.1 then (again, true) else left
  ]

  -- The value behind the refresh; a missing key gets the default. No value is a `KeyError`.
  unfoldable pub value_at :
      TimeoutSettings V → ℕ → K → TimeoutDict K V × Bool → TimeoutDict K V × Option V
  unfolding get set_item
  value_at s now k (t, false) = (t, none)
  value_at s now k (t, true) = elim (get k t.entries) [
    | some v ↦ (t, some v)
    | none ↦ elim s.default_factory [ some v ↦ (set_item now k v t, some v) | none ↦ (t, none) ]
  ]

  unfoldable pub touch : TimeoutSettings V → ℕ → K → TimeoutDict K V → TimeoutDict K V
  unfolding put
  touch s now k t =
      if s.update_key_time_on_get then record t { key_times = put k now t.key_times } else t

  unfoldable pub get_item : TimeoutSettings V → ℕ → K → TimeoutDict K V → TimeoutDict K V × Option V
  unfolding touch refresh value_at
  get_item s now k t = value_at s now k (refresh s now (touch s now k t))
