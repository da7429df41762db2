-- ===== src/Restore/Reinsert/Parts.antt =====
-- What a successful `reinsert` of a card has read and written.
use ha_dashboard_history.Base.{
  ℕ, ◌≡◌, refl, ap, sym, ◌∙◌, List, [], some, false, Option-cases, inl, inr, insert_at, set,
}
use ha_dashboard_history.Value.{Value, obj, Fields, get}
use ha_dashboard_history.Restore.Types.{
  RemovedItem, ItemKind, ok, ◌>>=◌, paths_shared, view_missing, cards_missing, or_refuse, >>=-eq-ok,
  or_refuse-eq-ok, if-refused-eq-ok, ok_injective,
}
use ha_dashboard_history.Restore.Place.{
  paths_share, find_view, cards_at, replace_at, with_views, views_of, put_views, views_key,
}
use ha_dashboard_history.Restore.Place.Views.{with_views_of, with_views_missing}
use ha_dashboard_history.Restore.Place.Found.{find_view-Finds}
use ha_dashboard_history.Restore.Reinsert.{reinsert, reinsert_card, card_index, by_kind}

-- What it found on its way, and what it wrote.
pub record WasInserted (config : Fields) (item : RemovedItem) (r : Fields) : Type 0 where
  pub views : List Value
  pub n : ℕ
  pub view : Fields
  pub at : ℕ
  pub cards : List Value
  pub unshared : paths_share config ≡ ok false
  pub views_eq : views_of config ≡ ok views
  pub found : find_view views item.view_path item.view_index ≡ some (n, view)
  pub index_eq : card_index view item item.anchor ≡ ok at
  pub cards_eq : cards_at (obj view) item.location ≡ some cards
  pub result :
      r
      ≡ put_views
          (set views n (replace_at (obj view) item.location (insert_at at item.payload cards)))
          config

by_kind-card :
    (result : Fields) (item : RemovedItem)
    → item.kind ≡ ItemKind.card
    → by_kind result item ≡ (views_of result >>= λ views. reinsert_card views result item)
unfolding by_kind
by_kind-card result item e = rw (e, by_kind) refl

-- A view that was found stands in the list, so the configuration had its views already.
had_views :
    (config : Fields) (item : RemovedItem) (views : List Value) (n : ℕ) (view : Fields)
    → views_of (with_views config) ≡ ok views
    → find_view views item.view_path item.view_index ≡ some (n, view)
    → with_views config ≡ config
had_views config item views n view h found = elim (Option-cases (get views_key config)) [
  | inl missing ↦
      let empty : ok [] ≡ ok views = sym (with_views_missing config missing) ∙ h in
      let stands = (find_view-Finds item.view_path item.view_index views n view found).stands in
      absurd (cc)
  | inr (v, e) ↦ with_views_of config v e
]

pub reinsert-card-WasInserted :
    (config : Fields) (item : RemovedItem) (r : Fields)
    → item.kind ≡ ItemKind.card
    → reinsert config item ≡ ok r
    → WasInserted config item r
unfolding reinsert reinsert_card
reinsert-card-WasInserted config item r kind h =
    let (shared, s_eq, h₁) = >>=-eq-ok (paths_share (with_views config)) _ h in
    let (unshared, h₂) = if-refused-eq-ok shared paths_shared _ h₁ in
    let h₃ = sym (by_kind-card (with_views config) item kind) ∙ h₂ in
    let (views, v_eq, h₄) = >>=-eq-ok (views_of (with_views config)) _ h₃ in
    let ((n, view), f_eq, h₅) = >>=-eq-ok (or_refuse view_missing _) _ h₄ in
    let found = or_refuse-eq-ok view_missing _ f_eq in
    let (at, a_eq, h₆) = >>=-eq-ok (card_index view item item.anchor) _ h₅ in
    let (cards, c_eq, h₇) = >>=-eq-ok (or_refuse cards_missing _) _ h₆ in
    let same = had_views config item views n view v_eq found in
    record {
      views = views;
      n = n;
      view = view;
      at = at;
      cards = cards;
      unshared = ap paths_share (sym same) ∙ s_eq ∙ ap ok unshared;
      views_eq = ap views_of (sym same) ∙ v_eq;
      found = found;
      index_eq = a_eq;
      cards_eq = or_refuse-eq-ok cards_missing _ c_eq;
      result = sym (ok_injective h₇) ∙ ap (put_views _) same;
    }
