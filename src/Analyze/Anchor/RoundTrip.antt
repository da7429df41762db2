-- ===== src/Analyze/Anchor/RoundTrip.antt =====
-- A card that was deleted, with the anchor taken of it, is put back exactly where it was.
use ha_dashboard_history.Base.{
  ℕ, zero, suc, ◌<◌, ◌≡◌, refl, ap, sym, ◌∙◌, inl, inr, List, [], ◌∷◌, some, false, arith, length,
  get_elem?, remove_at, insert_at, set, All, Text, ◌==◌, list_eq, nat_eq, list_beq, Option-cases,
}
use ha_dashboard_history.Base.ListLaws.{set-set_self}
use ha_dashboard_history.Value.{
  Value, arr, obj, Items, Fields, get, get_or_null, list, put, to_list, as_list,
}
use ha_dashboard_history.Value.Laws.{IsValue, get_or_null_of_get, get_or_null-put_ne}
use ha_dashboard_history.Restore.Types.{key, index, RemovedItem, ItemKind, ok, ok_injective}
use ha_dashboard_history.Restore.Place.{
  list_or_empty, cards_key, sections_key, path_key, paths_share, find_view, cards_at, replace_at,
  views_of, put_views, repeats,
}
use ha_dashboard_history.Restore.Place.Laws.{
  cards_at_key, cards_at_index, replace_at_key, replace_at_index, cards_at-replace_at,
  replace_at-replace_at,
}
use ha_dashboard_history.Restore.Place.Found.{find_view-Finds, view_paths-set}
use ha_dashboard_history.Restore.Place.Views.{
  views_of-put_views, paths_share_of, put_views-put_views, with_views_of, get-views,
}
use ha_dashboard_history.Restore.Anchor.{anchored_index}
use ha_dashboard_history.Restore.Reinsert.{reinsert}
use ha_dashboard_history.Restore.Reinsert.Branches.{reinsert-card-ok}
use ha_dashboard_history.Analyze.Anchor.{section_anchor}
use ha_dashboard_history.Analyze.Anchor.Proves.{
  cards_of_section, view_less, anchored_index-section_anchor,
}

-- The cards of a section, with the section and its list at hand.
record Nested (view : Fields) (at : ℕ) (cards : List Value) : Type 0 where
  sections : Items
  section : Fields
  items : Items
  sections_eq : get sections_key view ≡ some (arr sections)
  stands : get_elem? (to_list sections) at ≡ some (obj section)
  cards_eq : get cards_key section ≡ some (arr items)
  list_eq : to_list items ≡ cards

list_of :
    (v : Value) (cards : List Value)
    → cards_at v [] ≡ some cards
    → (xs : Items) × (v ≡ arr xs) × (to_list xs ≡ cards)
unfolding cards_at as_list
list_of (arr xs) cards h = (xs, refl, cc)
list_of v cards h = absurd (cc)

section_in :
    (v : Value) (cards : List Value)
    → cards_at v (key cards_key ∷ []) ≡ some cards
    → (section : Fields) × (xs : Items) × (v ≡ obj section)
      × (get cards_key section ≡ some (arr xs))
      × (to_list xs ≡ cards)
section_in (obj section) cards h = elim (Option-cases (get cards_key section)) [
  | inl e ↦ absurd (cc (cards_at_key [] section cards_key e))
  | inr (v, e) ↦
      let (xs, v_eq, same) = list_of v cards (sym (cards_at_key [] section cards_key e) ∙ h) in
      (section, xs, refl, e ∙ ap some v_eq, same)
]
section_in v cards h = absurd (unfold cards_at in cc)

Nested-in :
    (view : Fields) (at : ℕ) (cards : List Value) (v : Value)
    → get sections_key view ≡ some v
    → cards_at v (index at ∷ key cards_key ∷ []) ≡ some cards
    → Nested view at cards
Nested-in view at cards (arr sections) e h = elim (Option-cases (get_elem? (to_list sections) at)) [
  | inl f ↦ absurd (cc (cards_at_index (key cards_key ∷ []) sections at f))
  | inr (s, f) ↦
      let (section, xs, s_eq, there, same) =
        section_in s cards (sym (cards_at_index (key cards_key ∷ []) sections at f) ∙ h) in
      record {
        sections = sections;
        section = section;
        items = xs;
        sections_eq = e;
        stands = f ∙ ap some s_eq;
        cards_eq = there;
        list_eq = same;
      }
]
Nested-in view at cards v e h = absurd (unfold cards_at in cc)

Nested-of :
    (view : Fields) (at : ℕ) (cards : List Value)
    → cards_at (obj view) (cards_of_section at) ≡ some cards
    → Nested view at cards
Nested-of view at cards h = elim (Option-cases (get sections_key view)) [
  | inl e ↦ absurd (cc (cards_at_key (index at ∷ key cards_key ∷ []) view sections_key e))
  | inr (v, e) ↦
      Nested-in view at cards v e
        (sym (cards_at_key (index at ∷ key cards_key ∷ []) view sections_key e) ∙ h)
]

list_or_empty_of_get :
    (k : Text) (fs : Fields) (xs : Items)
    → get k fs ≡ some (arr xs)
    → list_or_empty (get_or_null k fs) ≡ ok (to_list xs)
list_or_empty_of_get k fs xs e =
    ap list_or_empty (get_or_null_of_get k fs e) ∙ (unfold list_or_empty in refl)

replace_at_less :
    (view : Fields) (at i : ℕ) (cards : List Value) (n : Nested view at cards)
    → replace_at (obj view) (cards_of_section at) (remove_at i cards)
      ≡ obj (view_less view (to_list n.sections) at n.section i cards)
replace_at_less view at i cards n =
    let new = remove_at i cards in
    let bottom : replace_at (arr n.items) [] new ≡ list new = unfold replace_at in refl in
    replace_at_key (index at ∷ key cards_key ∷ []) view sections_key new n.sections_eq
    ∙ ap (λ v. obj (put sections_key v view))
        (replace_at_index (key cards_key ∷ []) n.sections at new n.stands
          ∙ ap (λ s. list (set (to_list n.sections) at s))
              (replace_at_key [] n.section cards_key new n.cards_eq
                ∙ ap (λ v. obj (put cards_key v n.section)) bottom))

insert_at-remove_at :
    (i : ℕ) (v : Value) (xs : List Value)
    → get_elem? xs i ≡ some v
    → insert_at i v (remove_at i xs) ≡ xs
insert_at-remove_at i v [] h = absurd (cc)
insert_at-remove_at zero v (x ∷ xs) h = cc
insert_at-remove_at (suc i) v (x ∷ xs) h = ap (λ ys. x ∷ ys) (insert_at-remove_at i v xs h)

lt-length : (i : ℕ) (v : Value) (xs : List Value) → get_elem? xs i ≡ some v → i < length xs
lt-length i v [] h = absurd (cc)
lt-length zero v (x ∷ xs) h = omega arith
lt-length (suc i) v (x ∷ xs) h = let r = lt-length i v xs h in omega arith

-- The configuration without the card.
abbrev pub without_card : Fields → List Value → ℕ → Fields → ℕ → List Value → ℕ → Fields
without_card config views n view at cards i =
    put_views (set views n (replace_at (obj view) (cards_of_section at) (remove_at i cards))) config

other_key : (sections_key == path_key) ≡ false
unfolding list_beq
other_key = refl

-- A card of a section is deleted, and nothing else changes. Put back with the anchor that
-- `_section_anchor` takes of it, it is placed in its old place: `reinsert` succeeds, and the
-- configuration is exactly the one from before. The view is one that `_find_view` finds, no two views
-- share a path, and the cards of the section are values that Python can hold.
pub reinsert-without_card :
    (config : Fields) (item : RemovedItem) (views : List Value) (n : ℕ) (view : Fields) (at : ℕ)
    (cards : List Value)
    → paths_share config ≡ ok false
    → views_of config ≡ ok views
    → find_view views item.view_path item.view_index ≡ some (n, view)
    → item.kind ≡ ItemKind.card
    → item.location ≡ cards_of_section at
    → cards_at (obj view) (cards_of_section at) ≡ some cards
    → get_elem? cards item.index ≡ some item.payload
    → All IsValue cards
    → section_anchor view
        (cards_of_section at)
        item.index
        ((cards_of_section at, item.index) ∷ [])
        []
      ≡ ok item.anchor
    → reinsert (without_card config views n view at cards item.index) item ≡ ok config
reinsert-without_card config item views n view at cards unshared views_eq found kind place there
      card good taken =
    let i = item.index in
    let f = find_view-Finds item.view_path item.view_index views n view found in
    let parts = Nested-of view at cards there in
    let less = view_less view (to_list parts.sections) at parts.section i cards in
    let written = replace_at_less view at i cards parts in
    let same_path : get_or_null path_key less ≡ get_or_null path_key view =
      get_or_null-put_ne sections_key path_key _ view other_key in
    let views' = set views n (obj less) in
    let config' = without_card config views n view at cards i in
    let config'_eq : config' ≡ put_views views' config =
      ap (λ v. put_views (set views n v) config) written in
    let of_config' : views_of config' ≡ ok views' =
      ap views_of config'_eq ∙ views_of-put_views views' config in
    let unshared' : paths_share config' ≡ ok false =
      paths_share_of config' views' of_config'
      ∙ ap repeats (view_paths-set views n view less f.stands same_path)
      ∙ sym (paths_share_of config views views_eq)
      ∙ unshared in
    let (anchor, taken', proven) =
      anchored_index-section_anchor view (to_list parts.sections) at parts.section cards i
        (list_or_empty_of_get sections_key view parts.sections parts.sections_eq) parts.stands
        (list_or_empty_of_get cards_key parts.section parts.items parts.cards_eq
          ∙ ap ok parts.list_eq)
        (lt-length i item.payload cards card) good in
    let has : item.anchor ≡ some anchor = ok_injective (sym taken ∙ taken') in
    let proven' : anchored_index less item.location anchor ≡ ok (some i) =
      ap (λ l. anchored_index less l anchor) place ∙ proven in
    let there' : cards_at (obj less) item.location ≡ some (remove_at i cards) =
      ap (cards_at (obj less)) place
      ∙ ap (λ v. cards_at v (cards_of_section at)) (sym written)
      ∙ cards_at-replace_at (cards_of_section at) (obj view) cards (remove_at i cards) there in
    let whole : insert_at i item.payload (remove_at i cards) ≡ cards =
      insert_at-remove_at i item.payload cards card in
    let back : replace_at (obj less) item.location (insert_at i item.payload (remove_at i cards))
        ≡ obj view =
      ap (λ l. replace_at (obj less) l (insert_at i item.payload (remove_at i cards))) place
      ∙ ap (replace_at (obj less) (cards_of_section at)) whole
      ∙ ap (λ v. replace_at v (cards_of_section at) cards) (sym written)
      ∙ replace_at-replace_at (cards_of_section at) (obj view) cards (remove_at i cards) there in
    reinsert-card-ok config' item views' n less
      (with_views_of config' _ (get-views config' views' of_config')) unshared' of_config'
      (f.again less same_path) anchor i (remove_at i cards) kind has proven' there'
    ∙ ap ok (
        ap (λ v. put_views (set views' n v) config') back
        ∙ ap (λ vs. put_views vs config') (set-set_self views n (obj less) (obj view) f.stands)
        ∙ ap (put_views views) config'_eq
        ∙ put_views-put_views views' views config views_eq)
