-- ===== src/Restore/Reinsert/Additive.antt =====
-- What a successful `reinsert` of a card has done: one list of one view is longer by the card.
use ha_dashboard_history.Base.{
  ℕ, zero, suc, min, ◌≡◌, refl, ap, sym, ◌∙◌, List, [], ◌∷◌, ◌++◌, Option, none, some, Bool, false,
  arith, length, get_elem?, insert_at, set, Text, ◌==◌, list_eq, nat_eq, Option-cases, inl, inr,
  if◌then◌else◌,
}
use ha_dashboard_history.Value.{Value, obj, Fields, get, put, list, as_list}
use ha_dashboard_history.Value.Laws.{get-put}
use ha_dashboard_history.Restore.Types.{
  RemovedItem, SectionAnchor, ItemKind, Step, key, index, ok, >>=-eq-ok, or_refuse-eq-ok,
  section_is_stranger, ok_injective,
}
use ha_dashboard_history.Restore.Place.{
  find_view, cards_at, replace_at, views_of, put_views, views_key,
}
use ha_dashboard_history.Restore.Place.Laws.{
  cards_at_key, replace_at_key, cards_at-replace_at, replace_at-replace_at,
}
use ha_dashboard_history.Restore.Place.Views.{views_of-put_views}
use ha_dashboard_history.Restore.Place.Found.{find_view-Finds}
use ha_dashboard_history.Restore.Anchor.{anchored_index}
use ha_dashboard_history.Restore.Reinsert.{reinsert, card_index}
use ha_dashboard_history.Restore.Reinsert.Parts.{reinsert-card-WasInserted}

-- Where a card is to go: to the index it had, or, where it has an anchor, to the proven one.
abbrev pub IsPlace : Fields → RemovedItem → Option SectionAnchor → ℕ → Type 0
IsPlace view item none at = at ≡ item.index
IsPlace view item (some anchor) at = anchored_index view item.location anchor ≡ ok (some at)

-- One view changed among the others: in its list the card stands between what was above and what
-- was below, at its place or behind the last card; the view is the old one but for that list, and
-- another key of the configuration reads as it did.
pub record IsInserted (config : Fields) (item : RemovedItem) (r : Fields) (other : Text)
    : Type 0 where
  pub front : List Value
  pub back : List Value
  pub view : Fields
  pub view' : Fields
  pub above : List Value
  pub below : List Value
  pub at : ℕ
  pub views_before : views_of config ≡ ok (front ++ (obj view ∷ back))
  pub views_after : views_of r ≡ ok (front ++ (obj view' ∷ back))
  pub its_view :
      find_view (front ++ (obj view ∷ back)) item.view_path item.view_index
      ≡ some (length front, view)
  pub cards_before : cards_at (obj view) item.location ≡ some (above ++ below)
  pub cards_after : cards_at (obj view') item.location ≡ some (above ++ (item.payload ∷ below))
  pub place : IsPlace view item item.anchor at
  pub placed : length above ≡ min at (length (above ++ below))
  pub rest_of_view : replace_at (obj view') item.location (above ++ below) ≡ obj view
  pub rest_of_config : get other r ≡ get other config

card_index-IsPlace :
    (view : Fields) (item : RemovedItem) (anchor : Option SectionAnchor) (at : ℕ)
    → card_index view item anchor ≡ ok at
    → IsPlace view item anchor at
unfolding card_index
card_index-IsPlace view item none at h = sym (ok_injective h)
card_index-IsPlace view item (some anchor) at h =
    let (found, e, h) = >>=-eq-ok (anchored_index view item.location anchor) _ h in
    e ∙ ap ok (or_refuse-eq-ok section_is_stranger found h)

record IsSplit (xs : List Value) (n : ℕ) (x y : Value) : Type 0 where
  front : List Value
  back : List Value
  joined : xs ≡ front ++ (x ∷ back)
  written : set xs n y ≡ front ++ (y ∷ back)
  position : n ≡ length front

set-IsSplit : (xs : List Value) (n : ℕ) (x y : Value) → get_elem? xs n ≡ some x → IsSplit xs n x y
set-IsSplit [] n x y h = absurd (cc)
set-IsSplit (v ∷ xs) zero x y h =
    let same : v ≡ x = cc in
    record {
      front = [];
      back = xs;
      joined = ap (λ u. u ∷ xs) same;
      written = refl;
      position = refl;
    }
set-IsSplit (v ∷ xs) (suc n) x y h =
    let s = set-IsSplit xs n x y h in
    record {
      front = v ∷ s.front;
      back = s.back;
      joined = ap (λ l. v ∷ l) s.joined;
      written = ap (λ l. v ∷ l) s.written;
      position = omega (arith, s.position);
    }

record IsBetween (at : ℕ) (x : Value) (xs : List Value) : Type 0 where
  above : List Value
  below : List Value
  before : xs ≡ above ++ below
  after : insert_at at x xs ≡ above ++ (x ∷ below)
  placed : length above ≡ min at (length (above ++ below))

insert_at-IsBetween : (at : ℕ) (x : Value) (xs : List Value) → IsBetween at x xs
insert_at-IsBetween zero x xs = record {
  above = [];
  below = xs;
  before = refl;
  after = refl;
  placed = omega arith;
}
insert_at-IsBetween (suc at) x [] = record {
  above = [];
  below = [];
  before = refl;
  after = refl;
  placed = omega arith;
}
insert_at-IsBetween (suc at) x (v ∷ xs) =
    let b = insert_at-IsBetween at x xs in
    record {
      above = v ∷ b.above;
      below = b.below;
      before = ap (λ l. v ∷ l) b.before;
      after = ap (λ l. v ∷ l) b.after;
      placed = omega (arith, b.placed);
    }

replace_at-obj :
    (location : List Step) (view : Fields) (old new : List Value)
    → cards_at (obj view) location ≡ some old
    → (view' : Fields) × (replace_at (obj view) location new ≡ obj view')
unfolding cards_at replace_at as_list
replace_at-obj [] view old new h = absurd (cc)
replace_at-obj (index i ∷ location) view old new h = absurd (cc)
replace_at-obj (key k ∷ location) view old new h = elim (Option-cases (get k view)) [
  | inl e ↦ absurd (cc (cards_at_key location view k e))
  | inr (w, e) ↦ (put k (replace_at w location new) view, replace_at_key location view k new e)
]

get-put_views :
    (other : Text) (views : List Value) (config : Fields)
    → (views_key == other) ≡ false
    → get other (put_views views config) ≡ get other config
unfolding put_views
get-put_views other views config apart =
    get-put views_key other (list views) config
    ∙ ap (λ (b : Bool). if b then some (list views) else get other config) apart

-- A `reinsert` of a card that succeeds changes one view, the one that the card's path or index
-- names: the list at the card's location holds the card between the cards that were there, at the
-- index it had, or the proven one where it has an anchor, or behind the last; that view is
-- otherwise as it was, the other views are, and so is each other key of the configuration.
pub reinsert-card-IsInserted :
    (config : Fields) (item : RemovedItem) (r : Fields) (other : Text)
    → item.kind ≡ ItemKind.card
    → (views_key == other) ≡ false
    → reinsert config item ≡ ok r
    → IsInserted config item r other
reinsert-card-IsInserted config item r other kind apart h =
    let d = reinsert-card-WasInserted config item r kind h in
    let grown = insert_at d.at item.payload d.cards in
    let b = insert_at-IsBetween d.at item.payload d.cards in
    let f = find_view-Finds item.view_path item.view_index d.views d.n d.view d.found in
    let (view', written) = replace_at-obj item.location d.view d.cards grown d.cards_eq in
    let s = set-IsSplit d.views d.n (obj d.view) (obj view') f.stands in
    let r_eq : r ≡ put_views (set d.views d.n (obj view')) config =
      d.result ∙ ap (λ v. put_views (set d.views d.n v) config) written in
    record {
      front = s.front;
      back = s.back;
      view = d.view;
      view' = view';
      above = b.above;
      below = b.below;
      at = d.at;
      views_before = d.views_eq ∙ ap ok s.joined;
      views_after =
          ap views_of r_eq
          ∙ (views_of-put_views (set d.views d.n (obj view')) config ∙ ap ok s.written);
      its_view =
          ap (λ l. find_view l item.view_path item.view_index) (sym s.joined)
          ∙ (d.found ∙ ap (λ n. some (n, d.view)) s.position);
      cards_before = d.cards_eq ∙ ap some b.before;
      cards_after =
          ap (λ v. cards_at v item.location) (sym written)
          ∙ (cards_at-replace_at item.location (obj d.view) d.cards grown d.cards_eq
              ∙ ap some b.after);
      place = card_index-IsPlace d.view item item.anchor d.at d.index_eq;
      placed = b.placed;
      rest_of_view =
          ap (replace_at (obj view') item.location) (sym b.before)
          ∙ (ap (λ v. replace_at v item.location d.cards) (sym written)
              ∙ replace_at-replace_at item.location (obj d.view) d.cards grown d.cards_eq);
      rest_of_config = ap (get other) r_eq ∙ get-put_views other _ config apart;
    }
