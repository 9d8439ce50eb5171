-- ===== src/Common/Maps.antt =====
-- Maps as association lists. The order of the list stands for the unspecified order in which an
-- `std::unordered_map` is walked; a later entry under the same key is never read, and goes with the
-- first.
use mathlib.Core.Path.{◌≡◌, refl, ◌∙◌}
use mathlib.Core.Logic.{inl, inr}
use mathlib.Core.Option.{Option, none, some}
use mathlib.Core.List.{List, [], ◌∷◌}
use native.Mathlib.Omega.{arith}
use stock_market_trading_sim.Common.Tests.{if◌then◌else◌, is_some, value_or, either, Bool-cases}
use stock_market_trading_sim.Common.Keys.{Key, ◌==◌}

abbrev pub Map {ℓ κ} : Type ℓ → Type κ → Type (ℓ ⊔ κ)
Map K V = List (K × V)

module _ {ℓ κ} {K : Type ℓ} {V : Type κ} ⦃e : Key K⦄ where
  -- `find`; `none` is `end()`.
  unfoldable pub lookup : K → Map K V → Option V
  lookup key [] = none
  lookup key ((own, value) ∷ rest) =
      let behind = lookup key rest in if own == key then some value else behind

  -- `erase(key)`
  unfoldable pub erase : K → Map K V → Map K V
  erase key [] = []
  erase key ((own, value) ∷ rest) =
      let left = erase key rest in if own == key then left else (own, value) ∷ left

  -- `map[key] = value`
  unfoldable pub insert : K → V → Map K V → Map K V
  insert key new [] = (key, new) ∷ []
  insert key new ((own, old) ∷ rest) =
      let changed = (own, old) ∷ insert key new rest in
      if own == key then (own, new) ∷ rest else changed

  -- `emplace` and `try_emplace`: no effect if the key is there.
  unfoldable pub emplace : K → V → Map K V → Map K V
  emplace k v m = if is_some (lookup k m) then m else insert k v m

  -- `m[k]`, read: a missing value is created by default.
  unfoldable pub get_or : K → V → Map K V → V
  get_or k d m = value_or (lookup k m) d

  pub lookup-insert :
      (key other : K) (new : V) (entries : Map K V)
      → lookup other (insert key new entries)
        ≡ (if key == other then some new else lookup other entries)
  unfolding lookup insert
  lookup-insert key other new [] = refl
  lookup-insert key other new ((own, old) ∷ rest) = ground (
    arith,
    lookup-insert key other new rest,
    e.same_iff own key,
    e.same_iff own other,
    e.same_iff key other,
  )

  pub lookup-erase :
      (k j : K) (m : Map K V) → lookup j (erase k m) ≡ (if k == j then none else lookup j m)
  unfolding lookup erase
  lookup-erase k j [] = ground arith
  lookup-erase k j ((i, w) ∷ m) =
      ground (arith, e.same_iff k j, e.same_iff i k, e.same_iff i j, lookup-erase k j m)

  pub lookup-emplace :
      (k j : K) (v : V) (m : Map K V)
      → lookup j (emplace k v m) ≡ (if k == j then some (value_or (lookup k m) v) else lookup j m)
  unfolding emplace
  lookup-emplace k j v m = ground (arith, lookup-insert k j v m, e.same_iff k j)

  pub lookup-nil : (k : K) → lookup k (let m : Map K V = [] in m) ≡ none
  unfolding lookup
  lookup-nil k = refl

  -- No key has two entries.
  abbrev pub Distinct : Map K V → Type κ
  Distinct [] = Unit
  Distinct ((key, value) ∷ m) = (lookup key m ≡ none) × Distinct m

  pub insert-Distinct : (key : K) (new : V) (m : Map K V) → Distinct m → Distinct (insert key new m)
  unfolding insert lookup
  insert-Distinct key new [] h = (refl, tt)
  insert-Distinct key new ((own, old) ∷ m) (h, t) = elim (Bool-cases (own == key)) [
    | inl k ↦ rw k (h, t)
    | inr k ↦ rw k (
      ground (arith, lookup-insert key own new m, e.same_iff key own, e.same_iff own key, h, k),
      insert-Distinct key new m t,
    )
  ]

  pub emplace-Distinct :
      (key : K) (new : V) (m : Map K V) → Distinct m → Distinct (emplace key new m)
  unfolding emplace
  emplace-Distinct key new m h =
      either Distinct (is_some (lookup key m)) h (insert-Distinct key new m h)

  -- Inserting the entries one by one.
  unfoldable pub inserts : Map K V → Map K V → Map K V
  inserts [] m = m
  inserts ((key, value) ∷ entries) m = inserts entries (insert key value m)

  -- Entries with distinct keys are found after their insertion, and else what was there.
  pub lookup-inserts :
      (key : K) (entries m : Map K V)
      → Distinct entries
      → lookup key (inserts entries m)
        ≡ (if is_some (lookup key entries) then lookup key entries else lookup key m)
  unfolding inserts lookup
  lookup-inserts key [] m h = refl
  lookup-inserts key ((own, value) ∷ entries) m (h, t) =
      lookup-inserts key entries (insert own value m) t
      ∙ ground (arith, lookup-insert own key value m, e.same_iff own key, h)

  pub inserts-Distinct : (entries m : Map K V) → Distinct m → Distinct (inserts entries m)
  unfolding inserts
  inserts-Distinct [] m h = h
  inserts-Distinct ((key, value) ∷ entries) m h =
      inserts-Distinct entries (insert key value m) (insert-Distinct key value m h)
