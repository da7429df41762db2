-- ===== src/Restore/Park.antt =====
-- restore.py: `parks`, `park` and `parked_label`: what happens to an item whose place is not proven.
pub mod Instead
use ha_dashboard_history.Base.{
  ℕ, Bool, true, false, not, ◌&&◌, ◌||◌, List, [], ◌∷◌, ◌++◌, Option, none, some, Text, codes, set,
  if◌then◌else◌,
}
use ha_dashboard_history.Value.{
  Value, null, str, arr, obj, Fields, get_or_null, put, list, as_list, py_eq, is_null, to_list,
}
use ha_dashboard_history.Restore.Types.{
  RemovedItem, SectionAnchor, ItemKind, Refusal, Result, ok, refused, broken, view_missing,
  not_a_list, ◌>>=◌, or_refuse,
}
use ha_dashboard_history.Restore.Place.{
  list_or_empty, paths_share, find_view, cards_at, views_key, sections_key, cards_key,
}
use ha_dashboard_history.Restore.Anchor.{anchored_index, section_gap_holds}

-- `view.get("type") == "sections"`
unfoldable pub is_sections_view : Fields → Bool
is_sections_view view = py_eq (get_or_null (codes "type") view) (str sections_key)

-- `_find_view(config.get("views") or [], item)`
unfoldable pub view_of_item : Fields → RemovedItem → Result (Option (ℕ × Fields))
view_of_item config item = do
  views ← list_or_empty (get_or_null views_key config)
  ok (find_view views item.view_path item.view_index)

section_parks_in : RemovedItem → Option (ℕ × Fields) → Result Bool
section_parks_in item none = ok false
section_parks_in item (some (n, view)) =
    if not (is_sections_view view)
    then ok false
    else do holds ← section_gap_holds view item.neighbours; ok (not holds)

unfoldable pub section_parks : Fields → RemovedItem → Result Bool
unfolding section_parks_in
section_parks config item = if is_null item.view_path then ok false else do
  shared ← paths_share config
  if shared then ok false else do found ← view_of_item config item; section_parks_in item found

-- `_anchor_holds`, for an item that has an anchor.
abbrev is_some {ℓ} : {A : Type ℓ} → Option A → Bool
is_some none = false
is_some (some a) = true

card_parks_in : RemovedItem → SectionAnchor → Option (ℕ × Fields) → Result Bool
card_parks_in item anchor none = ok false
card_parks_in item anchor (some (n, view)) = if not (is_sections_view view) then ok false else do
  at ← anchored_index view item.location anchor
  ok (not (is_some at) || not (is_some (cards_at (obj view) item.location)))

unfoldable pub card_parks : Fields → RemovedItem → Option SectionAnchor → Result Bool
unfolding card_parks_in
card_parks config item none = ok false
card_parks config item (some anchor) = if is_null item.view_path then ok false else do
  shared ← paths_share config
  if shared then ok false else do found ← view_of_item config item; card_parks_in item anchor found

unfoldable pub parks : Fields → RemovedItem → Result Bool
unfolding section_parks card_parks
parks config item = elim item.kind [
  | ItemKind.section ↦ section_parks config item
  | ItemKind.card ↦ card_parks config item item.anchor
  | _ ↦ ok false
]

-- The list under a key of a view, made where the view has none, and a refusal where it is no list.
unfoldable pub own_list : Value → Result (List Value)
own_list (arr xs) = ok (to_list xs)
own_list null = ok []
own_list _ = refused not_a_list

-- The view with a value at the end of the list under the key.
unfoldable pub append_under : Text → Fields → Value → Result Fields
unfolding own_list
append_under key view payload = do
  items ← own_list (get_or_null key view)
  ok (put key (list (items ++ payload ∷ [])) view)

-- `(result.get("views") or [])`, with the view written back into it.
unfoldable pub park_under : Text → Fields → Value → ℕ → Value → Result Fields
unfolding append_under
park_under key config view_path view_index payload = do
  views ← list_or_empty (get_or_null views_key config)
  (n, view) ← or_refuse view_missing (find_view views view_path view_index)
  view' ← append_under key view payload
  ok (put views_key (list (set views n (obj view'))) config)

unfoldable pub park : Fields → RemovedItem → Result Fields
unfolding park_under
park config item = elim item.kind [
  | ItemKind.section ↦ park_under sections_key config item.view_path item.view_index item.payload
  | _ ↦ park_under cards_key config item.view_path item.view_index item.payload
]

unfoldable pub parked_label : RemovedItem → Text
parked_label item = elim item.kind [
  | ItemKind.section ↦ item.label ++ codes " (as the last section)"
  | _ ↦ item.label
]
