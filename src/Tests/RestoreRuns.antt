-- ===== src/Tests/RestoreRuns.antt =====
-- Restoring and undoing: each theorem at a concrete dashboard.
use ha_dashboard_history.Base.{
  ℕ, String, ◌==◌, list_eq, nat_eq, ◌≡◌, refl, List, [], ◌∷◌, none, some, codes, true, false,
  list_beq, sort_by,
}
use ha_dashboard_history.Value.{
  Value, str, list, obj, Fields, field, end, get, get_or_null, to_list, of_list, truthy, as_list,
  is_null, py_eq, int_eq, put, size, without,
}
use ha_dashboard_history.Analyze.Views.{own}
use ha_dashboard_history.Analyze.Anchor.{
  section_anchor, anchor_from, section_of, neighbours_from, add_neighbour, is_in, step_eq,
}
use ha_dashboard_history.Analyze.Anchor.Proves.{cards_of_section}
use ha_dashboard_history.Analyze.Anchor.RoundTrip.{without_card, reinsert-without_card}
use ha_dashboard_history.Value.Dump.{same_value, dump, dump_str, join, escape}
use ha_dashboard_history.Value.Laws.{IsValue, end_ok, field_ok, str_ok, obj_ok}
use ha_dashboard_history.Restore.Types.{key, index, SectionAnchor, RemovedItem, ItemKind, ok}
use ha_dashboard_history.Restore.Place.{
  views_key, path_key, sections_key, cards_key, paths_share, list_or_empty, with_views, repeats,
  view_paths, has_repeat, views_of, find_view, find_by_path, cards_at, put_views, replace_at,
}
use ha_dashboard_history.Restore.Reinsert.{reinsert}
use ha_dashboard_history.Restore.Anchor.{anchored_index}
use ha_dashboard_history.Restore.Park.{
  parks, section_parks, card_parks, is_sections_view, view_of_item,
}
use ha_dashboard_history.Restore.Undo.{apply_undo}
use ha_dashboard_history.Restore.Undo.Inverse.{removal, apply_undo-reinsert}
use ha_dashboard_history.Restore.Reinsert.Additive.{IsInserted, reinsert-card-IsInserted}
use ha_dashboard_history.Restore.Anchor.Sound.{IsProven, anchored_index-IsProven}
use ha_dashboard_history.Restore.Park.Instead.{IsRefused, parks-IsRefused}

abbrev text : String → Value
text s = str (codes s)

abbrev entry : String → Value → Fields → Fields
entry s v fs = field (codes s) v fs

abbrev card_of : String → Value
card_of name = obj (entry "type" (text "tile") (entry "entity" (text name) end))

-- A view of sections with the cards of its one section.
abbrev home : List Value → Fields
home cards = entry "path" (text "home") (
    entry "type" (text "sections") (
      entry "sections"
        (list (obj (entry "type" (text "grid") (entry "cards" (list cards) end)) ∷ [])) end))

abbrev board : List Value → Fields
board cards = entry "views" (list (obj (home cards) ∷ [])) end

abbrev anchor : SectionAnchor
anchor = record {
  sections = 1;
  settings = obj (entry "type" (text "grid") end);
  survivors = card_of "light.a" ∷ card_of "light.c" ∷ [];
  before = 1;
  departed = [];
}

abbrev removed : RemovedItem
removed = record {
  kind = ItemKind.card;
  view_path = text "home";
  view_index = 0;
  location = key sections_key ∷ index 0 ∷ key cards_key ∷ [];
  index = 1;
  payload = card_of "light.b";
  label = codes "light.b";
  anchor = some anchor;
  neighbours = none;
  view_title = none;
}

put_back :
    reinsert (board (card_of "light.a" ∷ card_of "light.c" ∷ [])) removed
    ≡ ok (board (card_of "light.a" ∷ card_of "light.b" ∷ card_of "light.c" ∷ []))
unfolding reinsert paths_share list_or_empty get_or_null get with_views list_beq repeats view_paths
    to_list of_list truthy has_repeat views_of as_list find_view is_null find_by_path py_eq size
    int_eq cards_at replace_at put put_views anchored_index same_value dump without join sort_by
    dump_str escape
put_back = refl

-- The section has changed since, so the card has no proven place.
parked : parks (board []) removed ≡ ok true
unfolding parks section_parks card_parks is_sections_view view_of_item paths_share list_or_empty
    get_or_null get list_beq repeats view_paths to_list of_list truthy has_repeat as_list find_view
    is_null find_by_path py_eq size int_eq cards_at anchored_index same_value dump without join
    sort_by dump_str escape
parked = refl

abbrev before_removal : List Value
before_removal = card_of "light.a" ∷ card_of "light.b" ∷ card_of "light.c" ∷ []

abbrev after_removal : List Value
after_removal = card_of "light.a" ∷ card_of "light.c" ∷ []

title_key : (views_key == codes "title") ≡ false
unfolding list_beq
title_key = refl

reinsert-card-IsInserted_example :
    IsInserted (board after_removal) removed (board before_removal) (codes "title")
reinsert-card-IsInserted_example =
    reinsert-card-IsInserted (board after_removal) removed (board before_removal) (codes "title")
      refl title_key put_back

card-IsValue : IsValue (card_of "light.b")
unfolding get list_beq
card-IsValue =
    obj_ok (field_ok refl (str_ok (codes "tile")) (field_ok refl (str_ok (codes "light.b")) end_ok))

other_key : (sections_key == path_key) ≡ false
unfolding list_beq
other_key = refl

apply_undo-reinsert_example :
    (at : ℕ) × (apply_undo (board before_removal) (removal removed at) ≡ ok (board after_removal))
apply_undo-reinsert_example =
    apply_undo-reinsert (board after_removal) removed (board before_removal) sections_key
      (index 0 ∷ key cards_key ∷ []) refl refl other_key card-IsValue put_back

proven : anchored_index (home after_removal) removed.location anchor ≡ ok (some 1)
unfolding anchored_index list_or_empty get_or_null get list_beq to_list of_list py_eq size int_eq
    same_value dump without join sort_by dump_str escape
proven = refl

anchored_index-IsProven_example : IsProven (home after_removal) removed.location anchor 1
anchored_index-IsProven_example =
    anchored_index-IsProven (home after_removal) removed.location anchor 1 proven

parks-IsRefused_example : IsRefused (reinsert (board []) removed)
parks-IsRefused_example = parks-IsRefused (board []) removed parked

whole-unshared : paths_share (board before_removal) ≡ ok false
unfolding paths_share list_or_empty get_or_null get list_beq repeats view_paths to_list of_list
    truthy has_repeat
whole-unshared = refl

whole-views : views_of (board before_removal) ≡ ok (obj (home before_removal) ∷ [])
unfolding views_of get_or_null get list_beq as_list to_list of_list
whole-views = refl

whole-found :
    find_view (obj (home before_removal) ∷ []) removed.view_path removed.view_index
    ≡ some (0, home before_removal)
unfolding find_view find_by_path is_null get_or_null get list_beq py_eq
whole-found = refl

whole-cards : cards_at (obj (home before_removal)) (cards_of_section 0) ≡ some before_removal
unfolding cards_at get list_beq to_list of_list as_list
whole-cards = refl

anchor-taken :
    section_anchor (home before_removal) (cards_of_section 0) 1 ((cards_of_section 0, 1) ∷ []) []
    ≡ ok (some anchor)
unfolding section_anchor anchor_from section_of neighbours_from add_neighbour is_in list_or_empty
    get_or_null get list_beq to_list of_list own without step_eq
anchor-taken = refl

card-good : (name : String) → IsValue (card_of name)
unfolding get list_beq
card-good name =
    obj_ok (field_ok refl (str_ok (codes "tile")) (field_ok refl (str_ok (codes name)) end_ok))

reinsert-without_card_example :
    reinsert
      (without_card
        (board before_removal)
        (obj (home before_removal) ∷ [])
        0
        (home before_removal)
        0
        before_removal
        1)
      removed
    ≡ ok (board before_removal)
reinsert-without_card_example =
    reinsert-without_card (board before_removal) removed (obj (home before_removal) ∷ []) 0
      (home before_removal) 0 before_removal whole-unshared whole-views whole-found refl refl
      whole-cards refl (card-good "light.a", (card-good "light.b", (card-good "light.c", tt)))
      anchor-taken
