-- ===== src/Analyze/Positions.antt =====
-- analyze/matching.py: `_positions_lie`, `_paths_collide`, `_view_type`, `_view_type_changed` and
-- `_section_drift`. A dict of views is the list of its items, the last one of equal keys counting.
pub mod Standing
pub mod Trusted
use ha_dashboard_history.Base.{
  ℕ, zero, suc, min, Bool, true, false, not, ◌&&◌, ◌||◌, List, [], ◌∷◌, Option, none, some, Text,
  codes, eqb, length, lookup, if◌then◌else◌, nat_eq,
}
use ha_dashboard_history.Value.{Value, obj, str, Fields, get_or_null, truthy, py_eq, is_null}
use ha_dashboard_history.Restore.Types.{Result, ok, ◌>>=◌}
use ha_dashboard_history.Restore.Place.{list_or_empty, views_key, repeats, view_paths}
use ha_dashboard_history.Analyze.Views.{ViewKey, key_eq, views_by_key, by_position, view_under}
use ha_dashboard_history.Analyze.Anchor.{same_marks}

-- `view == standing`, or a title that is there and unchanged.
unfoldable pub is_recognised : Fields → Fields → Bool
is_recognised view standing =
    let title = get_or_null (codes "title") view in
    py_eq (obj view) (obj standing)
    || (not (is_null title) && py_eq title (get_or_null (codes "title") standing))

-- Every position of the one is a position of the other.
unfoldable pub all_there : List (ℕ × Fields) → List (ℕ × Fields) → Bool
all_there [] there = true
all_there ((n, view) ∷ here) there =
    let rest = all_there here there in elim (lookup n there) [ none ↦ false | some _ ↦ rest ]

-- The loop over the positions, which are the same in both.
unfoldable pub all_recognised : List (ℕ × Fields) → List (ℕ × Fields) → Bool
unfolding is_recognised
all_recognised [] there = true
all_recognised ((n, view) ∷ here) there =
    let rest = all_recognised here there in
    elim (lookup n there) [ none ↦ false | some standing ↦ is_recognised view standing && rest ]

unfoldable pub views_in : Fields → Result (List Value)
views_in config = list_or_empty (get_or_null views_key config)

unfoldable pub positions_differ : List (ℕ × Fields) → List (ℕ × Fields) → Bool
positions_differ here there =
    if not (all_there here there && all_there there here)
    then true
    else not (all_recognised here there)

unfoldable pub positions_lie : Fields → Fields → Result Bool
unfolding positions_differ
positions_lie one other = do
  ours ← views_in one
  theirs ← views_in other
  if eqb (length ours) (length theirs) && eqb (length theirs) 1 then ok false else do
    here ← by_position one (some (min (length ours) (length theirs)))
    there ← by_position other (some (min (length ours) (length theirs)))
    ok (positions_differ here there)

unfoldable pub paths_collide : Fields → Result Bool
paths_collide config = do
  views ← list_or_empty (get_or_null views_key config)
  repeats (view_paths views)

-- `view.get("type") or "masonry"`
unfoldable pub view_type : Fields → Value
view_type view =
    let v = get_or_null (codes "type") view in if truthy v then v else str (codes "masonry")

any_changed : List (ViewKey × Fields) → List (ViewKey × Fields) → List (ViewKey × Fields) → Bool
unfolding view_type
any_changed [] here there = false
any_changed ((key, _) ∷ keys) here there =
    let rest = any_changed keys here there in
    elim (view_under key here) [
      | none ↦ rest
      | some ours ↦ elim (view_under key there) [
        | none ↦ rest
        | some theirs ↦ not (py_eq (view_type ours) (view_type theirs)) || rest
      ]
    ]

unfoldable pub view_type_changed : Fields → Fields → Result Bool
unfolding any_changed
view_type_changed one other = do
  here ← views_by_key one
  there ← views_by_key other
  ok (any_changed here here there)

drifted :
    List (ViewKey × Fields)
    → List (ViewKey × Fields)
    → List (ViewKey × Fields)
    → Result (List ViewKey)
drifted [] new_views now_views = ok []
drifted ((key, _) ∷ keys) new_views now_views = do
  rest ← drifted keys new_views now_views
  elim (view_under key new_views) [
    | none ↦ ok rest
    | some new_view ↦ elim (view_under key now_views) [
      | none ↦ ok rest
      | some now_view ↦ (do
        same ← same_marks now_view new_view
        ok (if same then rest else key ∷ rest))
    ]
  ]

unfoldable pub section_drift :
    List (ViewKey × Fields) → List (ViewKey × Fields) → Result (List ViewKey)
unfolding drifted
section_drift new_views now_views = drifted new_views new_views now_views
