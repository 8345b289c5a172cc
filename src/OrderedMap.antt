-- ===== src/OrderedMap.antt =====
-- `std::map` and `std::set` over unsigned keys, as the parts of the program use them: the entries
-- in the order of iteration, that is by rising key. `begin()` is the head of the list, a set is a
-- map into the unit type.
pub mod Laws
use cpp_coroutine.Common.{
  ℕ, suc, ◌≤◌, List, [], ◌∷◌, Option, none, some, Bool, true, false, ◌==◌, ltb, if◌then◌else◌,
}

abbrev pub Map {ℓ} : Type ℓ → Type ℓ
Map V = List (ℕ × V)

abbrev pub IdSet : Type 0
IdSet = Map (Unit {0})

module _ {ℓ} {V : Type ℓ} where
  -- `find`: the mapped value, or `none` for `end()`.
  unfoldable pub find : ℕ → Map V → Option V
  find k [] = none
  find k ((j, v) ∷ m) = if j == k then some v else find k m

  -- `m[k] = v`
  unfoldable pub put : ℕ → V → Map V → Map V
  put k v [] = (k, v) ∷ []
  put k v ((j, w) ∷ m) =
      if j == k then (k, v) ∷ m else if ltb k j then (k, v) ∷ (j, w) ∷ m else (j, w) ∷ put k v m

  -- `erase` of the entry that `find` gives.
  unfoldable pub erase : ℕ → Map V → Map V
  erase k [] = []
  erase k ((j, w) ∷ m) = if j == k then m else (j, w) ∷ erase k m

  -- `++iter` at the key `k`: the first later entry.
  unfoldable pub after : ℕ → Map V → Option ℕ
  after k [] = none
  after k ((j, w) ∷ m) = if ltb k j then some j else after k m

  -- The keys rise, and none is below the bound.
  abbrev pub From : ℕ → Map V → Type 0
  From lo [] = Unit
  From lo ((k, v) ∷ m) = (lo ≤ k) × From (suc k) m

  abbrev pub IsSorted : Map V → Type 0
  IsSorted = From 0

-- Every entry has the property.
abbrev pub All {ℓ κ} : {V : Type ℓ} → (ℕ → V → Type κ) → Map V → Type κ
All P [] = Unit
All P ((k, v) ∷ m) = P k v × All P m
