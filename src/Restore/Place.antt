-- ===== src/Restore/Place.antt =====
-- restore.py: `_paths_share`, `_find_view`, `_cards_at`, and writing back what was found there.
pub mod Laws
pub mod Found
pub mod Views
use ha_dashboard_history.Base.{
  ℕ, zero, suc, Bool, true, false, ◌||◌, ◌&&◌, not, List, [], ◌∷◌, Option, none, some, Text, codes,
  get_elem?, set, if◌then◌else◌,
}
use ha_dashboard_history.Value.{
  Value, null, arr, obj, Fields, get, get_or_null, put, py_eq, truthy, as_dict, as_list, is_null,
  list, to_list, of_list,
}
use ha_dashboard_history.Restore.Types.{Step, key, index, Result, ok, broken, refused, ◌>>=◌}

-- The list of `x or []`, where x is a list, or counts as false.
unfoldable pub list_or_empty : Value → Result (List Value)
list_or_empty (arr xs) = ok (to_list xs)
list_or_empty v = if truthy v then broken else ok []

-- The list under a key, and a new one where there is none.
unfoldable pub list_or_new : Value → List Value
list_or_new v = elim (as_list v) [ none ↦ [] | some xs ↦ xs ]

abbrev pub views_key : Text
views_key = codes "views"

abbrev pub path_key : Text
path_key = codes "path"

abbrev pub sections_key : Text
sections_key = codes "sections"

abbrev pub cards_key : Text
cards_key = codes "cards"

abbrev pub badges_key : Text
badges_key = codes "badges"

-- `[view.get("path") for view in views if isinstance(view, dict) and view.get("path")]`
unfoldable pub view_paths : List Value → List Value
view_paths [] = []
view_paths (obj view ∷ views) =
    let paths = view_paths views in
    let path = get_or_null path_key view in if truthy path then path ∷ paths else paths
view_paths (_ ∷ views) = view_paths views

any_eq : Value → List Value → Bool
any_eq v [] = false
any_eq v (w ∷ ws) = py_eq v w || any_eq v ws

-- `len(paths) != len(set(paths))`
unfoldable pub has_repeat : List Value → Bool
unfolding any_eq
has_repeat [] = false
has_repeat (v ∷ vs) = any_eq v vs || has_repeat vs

-- A set holds what can be hashed: no list and no dict.
abbrev hashable : Value → Bool
hashable (arr xs) = false
hashable (obj fs) = false
hashable v = true

all_hashable : List Value → Bool
all_hashable [] = true
all_hashable (v ∷ vs) = hashable v && all_hashable vs

unfoldable pub repeats : List Value → Result Bool
unfolding all_hashable
repeats paths = if all_hashable paths then ok (has_repeat paths) else broken

unfoldable pub paths_share : Fields → Result Bool
paths_share config = do
  views ← list_or_empty (get_or_null views_key config)
  repeats (view_paths views)

-- The first view with the path, and its index.
unfoldable pub find_by_path : Value → ℕ → List Value → Option (ℕ × Fields)
find_by_path path n [] = none
find_by_path path n (obj view ∷ views) =
    if py_eq (get_or_null path_key view) path
    then some (n, view)
    else find_by_path path (suc n) views
find_by_path path n (_ ∷ views) = find_by_path path (suc n) views

abbrev at_index : ℕ → Option Value → Option (ℕ × Fields)
at_index n (some (obj view)) = some (n, view)
at_index n _ = none

unfoldable pub find_view : List Value → Value → ℕ → Option (ℕ × Fields)
unfolding find_by_path
find_view views view_path view_index =
    if is_null view_path
    then at_index view_index (get_elem? views view_index)
    else find_by_path view_path 0 views

-- The list at the end of a path, if the path leads to one.
unfoldable pub cards_at : Value → List Step → Option (List Value)
cards_at v [] = as_list v
cards_at (arr xs) (index i ∷ location) = elim (get_elem? (to_list xs) i) [
  | none ↦ none
  | some w ↦ cards_at w location
]
cards_at (obj fs) (key k ∷ location) = elim (get k fs) [
  | none ↦ none
  | some w ↦ cards_at w location
]
cards_at v (_ ∷ location) = none

-- The value with another list at the end of the path: what a change of that list in place does.
unfoldable pub replace_at : Value → List Step → List Value → Value
replace_at v [] new = list new
replace_at (arr xs) (index i ∷ location) new = elim (get_elem? (to_list xs) i) [
  | none ↦ arr xs
  | some w ↦ list (set (to_list xs) i (replace_at w location new))
]
replace_at (obj fs) (key k ∷ location) new = elim (get k fs) [
  | none ↦ obj fs
  | some w ↦ obj (put k (replace_at w location new) fs)
]
replace_at v (_ ∷ location) new = v

-- `config.setdefault("views", [])`
unfoldable pub with_views : Fields → Fields
with_views config = elim (get views_key config) [
  | none ↦ put views_key (list []) config
  | some _ ↦ config
]

abbrev or_broken : Option (List Value) → Result (List Value)
or_broken none = broken
or_broken (some views) = ok views

unfoldable pub views_of : Fields → Result (List Value)
views_of config = or_broken (as_list (get_or_null views_key config))

unfoldable pub put_views : List Value → Fields → Fields
put_views views config = put views_key (list views) config
