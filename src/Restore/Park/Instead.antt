-- ===== src/Restore/Park/Instead.antt =====
-- Where `parks` says that an item is placed elsewhere, `reinsert` would have refused it.
use ha_dashboard_history.Base.{
  ℕ, ◌≡◌, refl, List, Option, none, some, Bool, true, false, if◌then◌else◌, not, ◌||◌,
}
use ha_dashboard_history.Value.{Value, obj, Fields, get_or_null, is_null}
use ha_dashboard_history.Restore.Types.{
  RemovedItem, SectionAnchor, ItemKind, Refusal, Result, ok, refused, broken, ◌>>=◌, >>=-eq-ok,
  ok_injective,
}
use ha_dashboard_history.Restore.Place.{
  list_or_empty, paths_share, find_view, cards_at, with_views, views_of, views_key,
}
use ha_dashboard_history.Restore.Place.Views.{with_views_of, views_of_filled, get-views}
use ha_dashboard_history.Restore.Place.Found.{find_view-Finds}
use ha_dashboard_history.Restore.Anchor.{anchored_index, section_gap_holds}
use ha_dashboard_history.Restore.Reinsert.{reinsert}
use ha_dashboard_history.Restore.Reinsert.Branches.{
  reinsert-section-refused, reinsert-card-stranger, reinsert-card-missing,
}
use ha_dashboard_history.Restore.Park.{
  parks, section_parks, card_parks, section_parks_in, card_parks_in, view_of_item, is_sections_view,
  is_some,
}

abbrev pub IsRefused {ℓ} : {A : Type ℓ} → Result A → Type 0
IsRefused (ok a) = ⊥
IsRefused (refused r) = Unit
IsRefused broken = ⊥

-- A view that was found, in a configuration whose views share no path.
record HasView (config : Fields) (item : RemovedItem) : Type 0 where
  views : List Value
  n : ℕ
  view : Fields
  had : with_views config ≡ config
  unshared : paths_share config ≡ ok false
  views_eq : views_of config ≡ ok views
  found : find_view views item.view_path item.view_index ≡ some (n, view)

-- The tests that both kinds of item pass before their own.
fenced : Fields → RemovedItem → (Option (ℕ × Fields) → Result Bool) → Result Bool
fenced config item rest = if is_null item.view_path then ok false else do
  shared ← paths_share config
  if shared then ok false else do found ← view_of_item config item; rest found

fenced-HasView :
    (config : Fields) (item : RemovedItem) (rest : Option (ℕ × Fields) → Result Bool)
    → rest none ≡ ok false
    → fenced config item rest ≡ ok true
    → (v : HasView config item) × (rest (some (v.n, v.view)) ≡ ok true)
unfolding fenced view_of_item
fenced-HasView config item rest nothing h = by_path (is_null item.view_path) h
  where
    from_view :
        (views : List Value) (o : Option (ℕ × Fields))
        → paths_share config ≡ ok false
        → list_or_empty (get_or_null views_key config) ≡ ok views
        → find_view views item.view_path item.view_index ≡ o
        → rest o ≡ ok true
        → (v : HasView config item) × (rest (some (v.n, v.view)) ≡ ok true)
    from_view views none unshared read e h = absurd (cc)
    from_view views (some (n, view)) unshared read e h =
        let f = find_view-Finds item.view_path item.view_index views n view e in
        let views_eq = views_of_filled config views n (obj view) read f.stands in
        (
          record {
            views = views;
            n = n;
            view = view;
            had = with_views_of config _ (get-views config views views_eq);
            unshared = unshared;
            views_eq = views_eq;
            found = e;
          },
          h,
        )

    by_shared :
        (b : Bool)
        → paths_share config ≡ ok b
        → (if b then ok false else view_of_item config item >>= rest) ≡ ok true
        → (v : HasView config item) × (rest (some (v.n, v.view)) ≡ ok true)
    by_shared true e h = absurd (cc)
    by_shared false e h =
        let (o, o_eq, h₁) = >>=-eq-ok (view_of_item config item) rest h in
        let (views, read, h₂) = >>=-eq-ok (list_or_empty (get_or_null views_key config)) _ o_eq in
        from_view views o e read (ok_injective h₂) h₁

    by_path :
        (b : Bool)
        → (if b
            then ok false
            else paths_share config >>= λ shared.
                if shared then ok false else view_of_item config item >>= rest)
          ≡ ok true
        → (v : HasView config item) × (rest (some (v.n, v.view)) ≡ ok true)
    by_path true h = absurd (cc)
    by_path false h = let (b, e, h') = >>=-eq-ok (paths_share config) _ h in by_shared b e h'

IsRefused-of {ℓ} : {A : Type ℓ} (m : Result A) {r : Refusal} → m ≡ refused r → IsRefused m
IsRefused-of (ok a) h = absurd (cc)
IsRefused-of (refused r) h = tt
IsRefused-of broken h = absurd (cc)

section-IsRefused :
    (config : Fields) (item : RemovedItem)
    → item.kind ≡ ItemKind.section
    → section_parks config item ≡ ok true
    → IsRefused (reinsert config item)
unfolding section_parks section_parks_in fenced
section-IsRefused config item kind h =
    let (v, h') = fenced-HasView config item (section_parks_in item) refl h in
    IsRefused-of (reinsert config item) (
      reinsert-section-refused config item v.views v.n v.view v.had v.unshared v.views_eq v.found
        kind (no_gap v.n v.view h'))
  where
    no_gap :
        (n : ℕ) (view : Fields)
        → section_parks_in item (some (n, view)) ≡ ok true
        → section_gap_holds view item.neighbours ≡ ok false
    no_gap n view h = by_sections (is_sections_view view) h
      where
        by_gap :
            (b : Bool)
            → section_gap_holds view item.neighbours ≡ ok b
            → not b ≡ true
            → section_gap_holds view item.neighbours ≡ ok false
        by_gap true e h = absurd (cc)
        by_gap false e h = e

        by_sections :
            (b : Bool)
            → (if not b
                then ok false
                else section_gap_holds view item.neighbours >>= λ holds. ok (not holds))
              ≡ ok true
            → section_gap_holds view item.neighbours ≡ ok false
        by_sections false h = absurd (cc)
        by_sections true h =
            let (b, e, h') = >>=-eq-ok (section_gap_holds view item.neighbours) _ h in
            by_gap b e (ok_injective h')

card-IsRefused :
    (config : Fields) (item : RemovedItem) (anchor : SectionAnchor)
    → item.kind ≡ ItemKind.card
    → item.anchor ≡ some anchor
    → card_parks config item (some anchor) ≡ ok true
    → IsRefused (reinsert config item)
unfolding card_parks card_parks_in fenced
card-IsRefused config item anchor kind has h =
    let (v, h') = fenced-HasView config item (card_parks_in item anchor) refl h in in_view v h'
  where
    at_place :
        (v : HasView config item) (o : Option ℕ) (c : Option (List Value))
        → anchored_index v.view item.location anchor ≡ ok o
        → cards_at (obj v.view) item.location ≡ c
        → not (is_some o) || not (is_some c) ≡ true
        → IsRefused (reinsert config item)
    at_place v none c placed e h = IsRefused-of (reinsert config item) (
        reinsert-card-stranger config item v.views v.n v.view v.had v.unshared v.views_eq v.found
          anchor kind has placed)
    at_place v (some at) none placed e h = IsRefused-of (reinsert config item) (
        reinsert-card-missing config item v.views v.n v.view v.had v.unshared v.views_eq v.found
          anchor at kind has placed e)
    at_place v (some at) (some cards) placed e h = absurd (cc)

    in_view :
        (v : HasView config item)
        → card_parks_in item anchor (some (v.n, v.view)) ≡ ok true
        → IsRefused (reinsert config item)
    in_view v h = by_sections (is_sections_view v.view) h
      where
        by_sections :
            (b : Bool)
            → (if not b
                then ok false
                else anchored_index v.view item.location anchor >>= λ at.
                    ok (not (is_some at) || not (is_some (cards_at (obj v.view) item.location))))
              ≡ ok true
            → IsRefused (reinsert config item)
        by_sections false h = absurd (cc)
        by_sections true h =
            let (o, e, h') = >>=-eq-ok (anchored_index v.view item.location anchor) _ h in
            at_place v o (cards_at (obj v.view) item.location) e refl (ok_injective h')

-- Where `parks` says that an item is placed elsewhere, `reinsert` refuses to put it back: no item is
-- both parked and put back.
pub parks-IsRefused :
    (config : Fields) (item : RemovedItem)
    → parks config item ≡ ok true
    → IsRefused (reinsert config item)
unfolding parks
parks-IsRefused config item h = of_kind item.kind refl h
  where
    by_anchor :
        item.kind ≡ ItemKind.card
        → (o : Option SectionAnchor) → item.anchor ≡ o
        → card_parks config item o ≡ ok true
        → IsRefused (reinsert config item)
    by_anchor kind none e h = absurd (unfold card_parks in cc)
    by_anchor kind (some anchor) e h = card-IsRefused config item anchor kind e h

    of_kind :
        (k : ItemKind)
        → item.kind ≡ k
        → (elim k [
          | ItemKind.section ↦ section_parks config item
          | ItemKind.card ↦ card_parks config item item.anchor
          | _ ↦ ok false
        ])
          ≡ ok true
        → IsRefused (reinsert config item)
    of_kind ItemKind.section e h = section-IsRefused config item e h
    of_kind ItemKind.card e h = by_anchor e item.anchor refl h
    of_kind ItemKind.view e h = absurd (cc)
    of_kind (ItemKind.other t) e h = absurd (cc)
