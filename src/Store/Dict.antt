-- ===== src/Store/Dict.antt =====
-- Dicts and sets as lists: what store.py does with them.
pub mod Laws
use ha_dashboard_history.Base.{
  ◌≡◌, Bool, true, false, List, [], ◌∷◌, ◌++◌, Option, none, some, Text, contains, lookup, list_eq,
  nat_eq, ◌==◌, if◌then◌else◌,
}

-- A dict is the list of its items: `d[k] = v`, and `d.setdefault(k, v)`.
module _ {V : Type 0} where
  unfoldable pub set_item : Text → V → List (Text × V) → List (Text × V)
  set_item k v [] = (k, v) ∷ []
  set_item k v ((j, w) ∷ m) =
      let rest = set_item k v m in elim (k == j) [ true ↦ (j, v) ∷ m | false ↦ (j, w) ∷ rest ]

  unfoldable pub set_default : Text → V → List (Text × V) → List (Text × V)
  unfolding lookup
  set_default k v m = elim (lookup k m) [ none ↦ m ++ ((k, v) ∷ []) | some _ ↦ m ]

  -- `d.get(k, default)`
  unfoldable pub get_or : V → Text → List (Text × V) → V
  unfolding lookup
  get_or default k m = elim (lookup k m) [ none ↦ default | some v ↦ v ]

-- A set is the list of its elements, each there once.
unfoldable pub add : Text → List Text → List Text
unfolding contains
add a xs = if contains a xs then xs else a ∷ xs
