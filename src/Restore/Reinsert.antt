-- ===== src/Restore/Reinsert.antt =====
-- restore.py: `reinsert`.
pub mod Parts
pub mod Additive
pub mod Branches
use ha_dashboard_history.Base.{
  ℕ, Bool, true, false, not, List, [], ◌∷◌, Option, none, some, insert_at, set, if◌then◌else◌,
}
use ha_dashboard_history.Value.{Value, obj, Fields, get_or_null, put, list, as_list}
use ha_dashboard_history.Restore.Types.{
  RemovedItem, SectionAnchor, ItemKind, Result, ok, refused, broken, paths_shared,
  view_on_dashboard, view_missing, sections_differ, kind_unknown, section_is_stranger,
  cards_missing, ◌>>=◌, or_refuse,
}
use ha_dashboard_history.Restore.Place.{
  list_or_new, paths_share, find_view, cards_at, replace_at, with_views, views_of, put_views,
  sections_key,
}
use ha_dashboard_history.Restore.Anchor.{anchored_index, section_gap_holds, view_has_gone}

reinsert_view : List Value → Fields → RemovedItem → Result Fields
reinsert_view views result item =
    if view_has_gone views item
    then ok (put_views (insert_at item.index item.payload views) result)
    else refused view_on_dashboard

reinsert_section : List Value → Fields → RemovedItem → Result Fields
reinsert_section views result item = do
  (n, view) ← or_refuse view_missing (find_view views item.view_path item.view_index)
  holds ← section_gap_holds view item.neighbours
  if not holds then refused sections_differ else do
    let sections = insert_at item.index item.payload (list_or_new (get_or_null sections_key view))
    ok (put_views (set views n (obj (put sections_key (list sections) view))) result)

-- The index for the card: its own where it has no anchor, and else the proven one.
pub card_index : Fields → RemovedItem → Option SectionAnchor → Result ℕ
card_index view item none = ok item.index
card_index view item (some anchor) = do
  at ← anchored_index view item.location anchor
  or_refuse section_is_stranger at

reinsert_card : List Value → Fields → RemovedItem → Result Fields
unfolding card_index
reinsert_card views result item = do
  (n, view) ← or_refuse view_missing (find_view views item.view_path item.view_index)
  at ← card_index view item item.anchor
  cards ← or_refuse cards_missing (cards_at (obj view) item.location)
  let view' = replace_at (obj view) item.location (insert_at at item.payload cards)
  ok (put_views (set views n view') result)

-- The views are asked for by each kind that restore knows.
by_kind : Fields → RemovedItem → Result Fields
unfolding reinsert_view reinsert_section reinsert_card
by_kind result item = elim item.kind [
  | ItemKind.view ↦ views_of result >>= λ views. reinsert_view views result item
  | ItemKind.section ↦ views_of result >>= λ views. reinsert_section views result item
  | ItemKind.card ↦ views_of result >>= λ views. reinsert_card views result item
  | ItemKind.other _ ↦ refused kind_unknown
]

unfoldable pub reinsert : Fields → RemovedItem → Result Fields
unfolding by_kind
reinsert config item = do
  let result = with_views config
  shared ← paths_share result
  if shared then refused paths_shared else by_kind result item
