-- ===== src/Analyze/Views.antt =====
-- analyze/model.py: the views of a state with their keys, their sections, and what a section is apart
-- from its cards.
use ha_dashboard_history.Base.{
  ℕ, suc, Bool, true, false, List, [], ◌∷◌, ◌++◌, Option, none, some, Text, eqb, ltb, if◌then◌else◌,
}
use ha_dashboard_history.Value.{Value, obj, Fields, get_or_null, truthy, without, py_eq, as_list}
use ha_dashboard_history.Value.Dump.{dump}
use ha_dashboard_history.Restore.Types.{Step, key, index, Result, ok, ◌>>=◌}
use ha_dashboard_history.Restore.Place.{
  list_or_empty, views_key, sections_key, cards_key, badges_key, path_key,
}

-- `view.get("path") or ("#", index)`
pub data ViewKey : Type 0 where
  path : Value → ViewKey
  position : ℕ → ViewKey

unfoldable pub key_eq : ViewKey → ViewKey → Bool
key_eq (path v) (path w) = py_eq v w
key_eq (position n) (position m) = eqb n m
key_eq _ _ = false

unfoldable pub key_of_view : ℕ → Fields → ViewKey
key_of_view n view = let v = get_or_null path_key view in if truthy v then path v else position n

unfoldable pub keyed_from : ℕ → List Value → List (ViewKey × Fields)
unfolding key_of_view
keyed_from n [] = []
keyed_from n (obj view ∷ views) = (key_of_view n view, view) ∷ keyed_from (suc n) views
keyed_from n (_ ∷ views) = keyed_from (suc n) views

unfoldable pub views_by_key : Fields → Result (List (ViewKey × Fields))
unfolding keyed_from
views_by_key config = do
  views ← list_or_empty (get_or_null views_key config)
  ok (keyed_from 0 views)

-- `dict(views).get(key)`: the last view under a key.
unfoldable pub view_under : ViewKey → List (ViewKey × Fields) → Option Fields
view_under wanted [] = none
view_under wanted ((k, view) ∷ views) = elim (view_under wanted views) [
  | none ↦ if key_eq k wanted then some view else none
  | some later ↦ some later
]

-- `key[1] < before`, where a limit is given.
unfoldable pub within : Option ℕ → ℕ → Bool
within none n = true
within (some before) n = ltb n before

unfoldable pub positions_in : Option ℕ → List (ViewKey × Fields) → List (ℕ × Fields)
unfolding within
positions_in before [] = []
positions_in before ((path v, view) ∷ views) = positions_in before views
positions_in before ((position n, view) ∷ views) =
    let rest = positions_in before views in if within before n then (n, view) ∷ rest else rest

unfoldable pub by_position : Fields → Option ℕ → Result (List (ℕ × Fields))
unfolding positions_in
by_position config before = do views ← views_by_key config; ok (positions_in before views)

unfoldable pub section_list : Fields → List Value
section_list view = elim (as_list (get_or_null sections_key view)) [
  | none ↦ []
  | some sections ↦ sections
]

-- A section's own settings: everything but its cards.
unfoldable pub own : Value → Value
own (obj section) = obj (without cards_key section)
own v = v

unfoldable pub fingerprint : Value → Text
fingerprint v = dump v

-- `containers(view)`: each card list with the path that locates it.
section_cards : ℕ → List Value → List (List Step × List Value)
section_cards n [] = []
section_cards n (obj section ∷ sections) =
    let rest = section_cards (suc n) sections in
    elim (as_list (get_or_null cards_key section)) [
      | none ↦ rest
      | some cards ↦ (key sections_key ∷ index n ∷ key cards_key ∷ [], cards) ∷ rest
    ]
section_cards n (_ ∷ sections) = section_cards (suc n) sections

own_cards : Text → Value → List (List Step × List Value)
own_cards name v = elim (as_list v) [ none ↦ [] | some items ↦ (key name ∷ [], items) ∷ [] ]

unfoldable pub card_containers : Fields → Result (List (List Step × List Value))
unfolding own_cards section_cards
card_containers view = do
  sections ← list_or_empty (get_or_null sections_key view)
  ok (own_cards cards_key (get_or_null cards_key view) ++ section_cards 0 sections)

unfoldable pub badge_containers : Fields → Result (List (List Step × List Value))
unfolding own_cards
badge_containers view = ok (own_cards badges_key (get_or_null badges_key view))
