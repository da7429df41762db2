-- ===== src/Restore/Reinsert/Branches.antt =====
-- The branches of `reinsert` behind its first tests.
use ha_dashboard_history.Base.{insert_at, set, ℕ, ◌≡◌, refl, ◌∙◌, List, none, some, false}
use ha_dashboard_history.Value.{Value, obj, Fields}
use ha_dashboard_history.Restore.Types.{
  RemovedItem, SectionAnchor, ItemKind, ok, refused, sections_differ, section_is_stranger,
  cards_missing,
}
use ha_dashboard_history.Restore.Place.{
  paths_share, find_view, cards_at, with_views, views_of, put_views, replace_at,
}
use ha_dashboard_history.Restore.Anchor.{anchored_index, section_gap_holds}
use ha_dashboard_history.Restore.Reinsert.{
  reinsert, by_kind, reinsert_section, reinsert_card, card_index,
}

module _ (config : Fields) (item : RemovedItem) (views : List Value) (n : ℕ) (view : Fields)
    (had : with_views config ≡ config) (unshared : paths_share config ≡ ok false)
    (views_eq : views_of config ≡ ok views)
    (found : find_view views item.view_path item.view_index ≡ some (n, view)) where
  reinsert_lem : reinsert config item ≡ by_kind config item
  unfolding reinsert
  reinsert_lem = rw had (rw unshared refl)

  pub reinsert-section-refused :
      item.kind ≡ ItemKind.section
      → section_gap_holds view item.neighbours ≡ ok false
      → reinsert config item ≡ refused sections_differ
  unfolding by_kind reinsert_section
  reinsert-section-refused kind gap =
      let now : by_kind config item ≡ reinsert_section views config item =
        rw (kind, by_kind, views_eq) refl in
      reinsert_lem ∙ now ∙ rw found (rw gap refl)

  card_lem : item.kind ≡ ItemKind.card → reinsert config item ≡ reinsert_card views config item
  unfolding by_kind
  card_lem kind =
      let now : by_kind config item ≡ reinsert_card views config item =
        rw (kind, by_kind, views_eq) refl in
      reinsert_lem ∙ now

  pub reinsert-card-stranger :
      (anchor : SectionAnchor)
      → item.kind ≡ ItemKind.card
      → item.anchor ≡ some anchor
      → anchored_index view item.location anchor ≡ ok none
      → reinsert config item ≡ refused section_is_stranger
  unfolding reinsert_card card_index
  reinsert-card-stranger anchor kind has at = card_lem kind ∙ rw found (rw has (rw at refl))

  pub reinsert-card-missing :
      (anchor : SectionAnchor) (at : ℕ)
      → item.kind ≡ ItemKind.card
      → item.anchor ≡ some anchor
      → anchored_index view item.location anchor ≡ ok (some at)
      → cards_at (obj view) item.location ≡ none
      → reinsert config item ≡ refused cards_missing
  unfolding reinsert_card card_index
  reinsert-card-missing anchor at kind has proven gone =
      card_lem kind ∙ rw found (rw has (rw proven (rw gone refl)))

  pub reinsert-card-ok :
      (anchor : SectionAnchor) (at : ℕ) (cards : List Value)
      → item.kind ≡ ItemKind.card
      → item.anchor ≡ some anchor
      → anchored_index view item.location anchor ≡ ok (some at)
      → cards_at (obj view) item.location ≡ some cards
      → reinsert config item
        ≡ ok (
            put_views
              (set views n (replace_at (obj view) item.location (insert_at at item.payload cards)))
              config)
  unfolding reinsert_card card_index
  reinsert-card-ok anchor at cards kind has proven there =
      card_lem kind ∙ rw found (rw has (rw proven (rw there refl)))
