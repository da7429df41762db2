-- ===== src/Analyze/Settle/Whole.antt =====
-- What `_settle_sections` has proven of a section that it reports as removed.
use ha_dashboard_history.Base.{
  subst, list_eq, ℕ, zero, suc, ◌≡◌, refl, sym, ◌∙◌, inl, inr, Bool, true, false, ◌&&◌, List, [],
  ◌∷◌, ◌++◌, map, Option, none, some, arith, length, All, Elem, eqb, eqb_iff, Bool-cases,
}
use ha_dashboard_history.Value.{Value, Fields}
use ha_dashboard_history.Restore.Types.{Step}
use ha_dashboard_history.Analyze.Views.{ViewKey, key_eq}
use ha_dashboard_history.Analyze.Sections.{SectionSlot, Paired}
use ha_dashboard_history.Analyze.Anchor.{steps_eq}
use ha_dashboard_history.Analyze.Settle.{
  Slot, count_places, cards_place, whole_cards, cards_of, whole, sorted_keys, section_count,
  of_view, if_single, settled, settle_sections,
}
use ha_dashboard_history.Analyze.Settle.Counted.{AreCards, AllGone, AllGone-counted}

-- The one section of the view under a key that passes the test.
record IsSingle (more fewer : ViewKey → ℕ) (is_whole : SectionSlot → Bool) (rest : List SectionSlot)
    (s : SectionSlot) : Type 0 where
  view : ViewKey
  count : more view ≡ suc (fewer view)
  single : of_view is_whole view rest ≡ s ∷ []
  stands : Elem s rest
  same_view : key_eq s.view_key view ≡ true
  passes : is_whole s ≡ true

of_view_sound :
    (is_whole : SectionSlot → Bool) (k : ViewKey) (rest : List SectionSlot) (s : SectionSlot)
    (more : List SectionSlot)
    → of_view is_whole k rest ≡ s ∷ more
    → Elem s rest × (key_eq s.view_key k ≡ true) × (is_whole s ≡ true)
unfolding of_view
of_view_sound is_whole k [] s more h = absurd (cc)
of_view_sound is_whole k (r ∷ rest) s more h =
    elim (Bool-cases (key_eq r.view_key k && is_whole r)) [
      | inl e ↦
          let now : of_view is_whole k (r ∷ rest) ≡ r ∷ of_view is_whole k rest =
            rw (e, of_view) refl in
          let same : r ≡ s = cc in rw⁻¹ same ((zero, refl), ground arith, ground arith)
      | inr e ↦
          let now : of_view is_whole k (r ∷ rest) ≡ of_view is_whole k rest =
            rw (e, of_view) refl in
          let (m, at, passes) = of_view_sound is_whole k rest s more (sym now ∙ h) in
          ((suc m.0, m.1), at, passes)
    ]

All-append :
    (P : SectionSlot → Type 0) (xs ys : List SectionSlot) → All P xs → All P ys → All P (xs ++ ys)
All-append P [] ys h k = k
All-append P (x ∷ xs) ys h k = (h.0, All-append P xs ys h.1 k)

module _ (more fewer : ViewKey → ℕ) (is_whole : SectionSlot → Bool) (rest : List SectionSlot) where
  if_single-IsSingle :
      (k : ViewKey) (found : List SectionSlot)
      → of_view is_whole k rest ≡ found
      → more k ≡ suc (fewer k)
      → All (IsSingle more fewer is_whole rest) (if_single found)
  unfolding if_single
  if_single-IsSingle k [] e c = tt
  if_single-IsSingle k (s ∷ t ∷ found) e c = tt
  if_single-IsSingle k (s ∷ []) e c =
      let (m, at, passes) = of_view_sound is_whole k rest s [] e in
      (record { view = k; count = c; single = e; stands = m; same_view = at; passes = passes }, tt)

  settled-IsSingle :
      (keys : List ViewKey)
      → All (IsSingle more fewer is_whole rest) (settled more fewer is_whole rest keys)
  unfolding settled
  settled-IsSingle [] = tt
  settled-IsSingle (k ∷ keys) = elim (Bool-cases (eqb (more k) (suc (fewer k)))) [
    | inl e ↦ rw e (
        All-append _ (if_single (of_view is_whole k rest)) _
          (if_single-IsSingle k _ refl ((eqb_iff (more k) (suc (fewer k))).0 e))
          (settled-IsSingle keys))
    | inr e ↦ rw e (settled-IsSingle keys)
  ]

-- What makes a section one that went whole: its view has one section less, it has cards, each one of
-- them is among the removed ones, and no other left-over section of the view has that many.
pub record IsGone (old_views new_views : List (ViewKey × Fields)) (rest : List SectionSlot)
    (gone : List Slot) (s : SectionSlot) : Type 0 where
  pub view : ViewKey
  pub same_view : key_eq s.view_key view ≡ true
  pub lost_one : section_count old_views view ≡ suc (section_count new_views view)
  pub stands : Elem s rest
  pub single : of_view (λ t. whole t (count_places gone) false) view rest ≡ s ∷ []
  pub first : Value
  pub others : List Value
  pub has_cards : cards_of s.section ≡ some (first ∷ others)
  pub all_gone : AllGone gone s 0 (first ∷ others)

whole-cards :
    (s : SectionSlot) (counted : ViewKey → List Step → ℕ) (o : Option (List Value))
    → whole_cards s counted false o ≡ true
    → (first : Value) × (others : List Value) × (o ≡ some (first ∷ others))
      × (counted s.view_key (cards_place s.index) ≡ length (first ∷ others))
unfolding whole_cards
whole-cards s counted none h = absurd (cc)
whole-cards s counted (some []) h = absurd (cc)
whole-cards s counted (some (c ∷ cards)) h = (c, cards, refl, (eqb_iff _ _).0 h)

All-Elem :
    (P : SectionSlot → Type 0) (rest : List SectionSlot) (s : SectionSlot)
    → All P rest
    → Elem s rest
    → P s
All-Elem P [] s h (m, at) = absurd (cc)
All-Elem P (r ∷ rest) s h (zero, at) = let same : r ≡ s = cc in subst P same h.0
All-Elem P (r ∷ rest) s h (suc m, at) = All-Elem P rest s h.1 (m, at)

IsGone-of :
    (old_views new_views : List (ViewKey × Fields)) (rest : List SectionSlot) (gone : List Slot)
    (found : List SectionSlot)
    → All (AreCards gone) rest
    → All
        (IsSingle
          (section_count old_views)
          (section_count new_views)
          (λ t. whole t (count_places gone) false)
          rest)
        found
    → All (IsGone old_views new_views rest gone) found
unfolding whole
IsGone-of old_views new_views rest gone [] are h = tt
IsGone-of old_views new_views rest gone (s ∷ found) are (one, h) =
    let (first, others, cards, counted) =
      whole-cards s (count_places gone) (cards_of s.section) one.passes in
    (
      record {
        view = one.view;
        same_view = one.same_view;
        lost_one = one.count;
        stands = one.stands;
        single = one.single;
        first = first;
        others = others;
        has_cards = cards;
        all_gone =
            AllGone-counted gone s (first ∷ others) (All-Elem (AreCards gone) rest s are one.stands)
              cards counted;
      },
      IsGone-of old_views new_views rest gone found are h,
    )

-- A section is reported as removed only where its view lost exactly one section, each one of its
-- cards, of which there is at least one, is among the removed cards, and it is the only left-over
-- section of its view of which that many are. The removed cards that sit in a left-over section are
-- cards of it, none of them twice.
pub settle_sections-IsGone :
    (old_views new_views : List (ViewKey × Fields)) (paired : Paired)
    (removed_cards added_cards : List Slot)
    → All (AreCards removed_cards) paired.rest_old
    → All
        (IsGone old_views new_views paired.rest_old removed_cards)
        (settle_sections old_views new_views paired removed_cards added_cards).removed
unfolding settle_sections
settle_sections-IsGone old_views new_views paired removed_cards added_cards are =
    IsGone-of old_views new_views paired.rest_old removed_cards _ are (
      settled-IsSingle _ _ _ paired.rest_old
        (sorted_keys (map (λ (s : SectionSlot). s.view_key) paired.rest_old)))
