-- ===== src/Restore/Undo/Inverse.antt =====
-- Taking a card out again after it was put back: `apply_undo` undoes `reinsert`.
use ha_dashboard_history.Base.{
  true, ℕ, ◌≡◌, refl, ap, sym, ◌∙◌, List, [], ◌∷◌, none, some, Bool, false, insert_at, get_elem?,
  length, min, set, is_nil, Text, ◌==◌, list_eq, nat_eq, sort_by,
}
use ha_dashboard_history.Base.ListLaws.{get_elem?-insert_at, remove_at-insert_at, set-set_self}
use ha_dashboard_history.Value.{
  truthy, of_list, get, get_or_null, or_null, list, Value, obj, Fields,
}
use ha_dashboard_history.Value.Laws.{IsValue, py_eq_refl}
use ha_dashboard_history.Restore.Types.{
  Step, key, RemovedItem, ItemKind, Action, StepKind, UndoStep, UndoPlan, Result, ok,
}
use ha_dashboard_history.Restore.Place.{
  paths_share, find_view, cards_at, replace_at, with_views, views_of, put_views, views_key,
  path_key, repeats,
}
use ha_dashboard_history.Restore.Place.Laws.{
  replace_at-Rewritten, cards_at-replace_at, replace_at-replace_at,
}
use ha_dashboard_history.Restore.Place.Found.{find_view-Finds, view_paths-set}
use ha_dashboard_history.Restore.Place.Views.{
  views_of-put_views, paths_share_of, put_views-put_views, with_views_of, get-views,
}
use ha_dashboard_history.Restore.Reinsert.{reinsert}
use ha_dashboard_history.Restore.Reinsert.Parts.{reinsert-card-WasInserted}
use ha_dashboard_history.Restore.Undo.{
  apply_undo, run_plan, run_steps, remove_card, edit_cards, remove_item, settle_views,
  highest_first, lowest_first, pick,
}

-- The plan that takes the card of an item out of the list at an index.
abbrev pub removal : RemovedItem → ℕ → UndoPlan
removal item at = record {
  blocked = none;
  steps =
      record {
        action = Action.remove;
        kind = StepKind.card;
        view_path = item.view_path;
        view_index = item.view_index;
        location = item.location;
        index = at;
        expect = item.payload;
        payload = item.payload;
        label = item.label;
        parked = false;
        expect_absent = false;
      }
      ∷ [];
}

abbrev step_of : RemovedItem → ℕ → UndoStep
step_of item at = record {
  action = Action.remove;
  kind = StepKind.card;
  view_path = item.view_path;
  view_index = item.view_index;
  location = item.location;
  index = at;
  expect = item.payload;
  payload = item.payload;
  label = item.label;
  parked = false;
  expect_absent = false;
}

remove_item-insert_at :
    (item : RemovedItem) (at : ℕ) (cards : List Value)
    → IsValue item.payload
    → remove_item (insert_at at item.payload cards) (step_of item (min at (length cards)))
      ≡ ok cards
unfolding remove_item
remove_item-insert_at item at cards good =
    rw (get_elem?-insert_at at item.payload cards, remove_item)
      (rw (py_eq_refl good) (ap ok (remove_at-insert_at at item.payload cards)))

-- A plan with this one step is that step.
run_removal :
    (item : RemovedItem) (at : ℕ) (config r : Fields)
    → remove_card config (step_of item at) ≡ ok r
    → run_plan (step_of item at ∷ []) config ≡ ok r
unfolding run_plan run_steps pick highest_first lowest_first sort_by
run_removal item at config r h = rw h

-- An edit of the cards of a view that was found, with all its parts at hand.
pub edit_cards_lem :
    (change : List Value → Result (List Value)) (config : Fields) (step : UndoStep)
    (views : List Value) (n : ℕ) (view : Fields) (cards new : List Value)
    → views_of config ≡ ok views
    → find_view views step.view_path step.view_index ≡ some (n, view)
    → cards_at (obj view) step.location ≡ some cards
    → change cards ≡ ok new
    → edit_cards change config step
      ≡ ok (put_views (set views n (replace_at (obj view) step.location new)) config)
unfolding edit_cards
edit_cards_lem change config step views n view cards new h₁ h₂ h₃ h₄ = rw h₁ (rw h₂ (rw h₃ (rw h₄)))

is_nil_of_elem :
    (views : List Value) (n : ℕ) (v : Value) → get_elem? views n ≡ some v → is_nil views ≡ false
is_nil_of_elem [] n v h = absurd (cc)
is_nil_of_elem (w ∷ views) n v h = refl

truthy-list : (views : List Value) → is_nil views ≡ false → truthy (list views) ≡ true
unfolding truthy of_list
truthy-list [] h = absurd (cc)
truthy-list (v ∷ views) h = refl

get_or_null-truthy :
    (config : Fields) (views : List Value)
    → get views_key config ≡ some (list views)
    → is_nil views ≡ false
    → truthy (get_or_null views_key config) ≡ true
unfolding get_or_null
get_or_null-truthy config views h filled = ap (λ o. truthy (or_null o)) h ∙ truthy-list views filled

settle_views_lem :
    (had : Bool) (steps : List UndoStep) (config : Fields) (views : List Value)
    → views_of config ≡ ok views
    → is_nil views ≡ false
    → settle_views had steps config ≡ ok config
unfolding settle_views
settle_views_lem had steps config views h filled =
    let there : truthy (get_or_null views_key config) ≡ true =
      get_or_null-truthy config views (get-views config views h) filled in
    rw there refl

apply_undo_lem :
    (config done : Fields) (steps : List UndoStep)
    → with_views config ≡ config
    → paths_share config ≡ ok false
    → run_plan steps config ≡ ok done
    → ((had : Bool) → settle_views had steps done ≡ ok done)
    → apply_undo config (record { blocked = none; steps = steps }) ≡ ok done
unfolding apply_undo
apply_undo_lem config done steps same unshared run settled =
    rw same (rw unshared (rw run (settled _)))

-- A card that `reinsert` put back is taken out again by a plan of one step, at the index where the
-- card went in: the undo succeeds, and the configuration is exactly the one from before.
-- The card's list hangs under a key of its view other than `path`, and the card is a value that
-- Python can hold (no dict in it has a key twice).
pub apply_undo-reinsert :
    (config : Fields) (item : RemovedItem) (r : Fields) (k : Text) (location : List Step)
    → item.kind ≡ ItemKind.card
    → item.location ≡ key k ∷ location
    → (k == path_key) ≡ false
    → IsValue item.payload
    → reinsert config item ≡ ok r
    → (at : ℕ) × (apply_undo r (removal item at) ≡ ok config)
apply_undo-reinsert config item r k location kind place other good h =
    let d = reinsert-card-WasInserted config item r kind h in
    let at = min d.at (length d.cards) in
    let grown = insert_at d.at item.payload d.cards in
    let f = find_view-Finds item.view_path item.view_index d.views d.n d.view d.found in
    let cards_at' : cards_at (obj d.view) (key k ∷ location) ≡ some d.cards =
      ap (cards_at (obj d.view)) (sym place) ∙ d.cards_eq in
    let w = replace_at-Rewritten k location d.view d.cards grown other cards_at' in
    let written : replace_at (obj d.view) item.location grown ≡ obj w.view' =
      ap (λ l. replace_at (obj d.view) l grown) place ∙ w.written in
    let views' = set d.views d.n (obj w.view') in
    let r_eq : r ≡ put_views views' config =
      d.result ∙ ap (λ v. put_views (set d.views d.n v) config) written in
    let of_r : views_of r ≡ ok views' = ap views_of r_eq ∙ views_of-put_views views' config in
    let back : replace_at (obj w.view') item.location d.cards ≡ obj d.view =
      ap (λ v. replace_at v item.location d.cards) (sym written)
      ∙ replace_at-replace_at item.location (obj d.view) d.cards grown d.cards_eq in
    let there : cards_at (obj w.view') item.location ≡ some grown =
      ap (λ v. cards_at v item.location) (sym written)
      ∙ cards_at-replace_at item.location (obj d.view) d.cards grown d.cards_eq in
    let restored : put_views (set views' d.n (replace_at (obj w.view') item.location d.cards)) r
        ≡ config =
      ap (λ v. put_views (set views' d.n v) r) back
      ∙ ap (λ vs. put_views vs r) (set-set_self d.views d.n (obj w.view') (obj d.view) f.stands)
      ∙ ap (put_views d.views) r_eq
      ∙ put_views-put_views views' d.views config d.views_eq in
    let edited : remove_card r (step_of item at) ≡ ok config =
      unfold remove_card in
      edit_cards_lem _ r (step_of item at) views' d.n w.view' grown d.cards of_r
        (f.again w.view' w.same_path) there (remove_item-insert_at item d.at d.cards good)
      ∙ ap ok restored in
    let unshared : paths_share r ≡ ok false =
      paths_share_of r views' of_r
      ∙ ap repeats (view_paths-set d.views d.n d.view w.view' f.stands w.same_path)
      ∙ sym (paths_share_of config d.views d.views_eq)
      ∙ d.unshared in
    (
      at,
      apply_undo_lem r config (step_of item at ∷ []) (with_views_of r _ (get-views r views' of_r))
          unshared (run_removal item at r config edited)
          (λ had.
            settle_views_lem had _ config d.views d.views_eq
              (is_nil_of_elem d.views d.n (obj d.view) f.stands)),
    )
