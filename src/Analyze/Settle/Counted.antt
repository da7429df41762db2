-- ===== src/Analyze/Settle/Counted.antt =====
-- `_count_places` against the cards of a section: as many removed as there are means each of them.
use ha_dashboard_history.Base.{
  ap, subst, Ordered, ◌<◌, ◌≤◌, ◌+◌, ◌≢◌, ◌==◌, list_eq, if◌then◌else◌, ℕ, zero, suc, ◌≡◌, refl,
  inl, inr, Bool, true, ◌&&◌, List, [], ◌∷◌, Option, none, some, arith, length, All, Elem,
  Bool-cases,
}
use ha_dashboard_history.Value.{Value}
use ha_dashboard_history.Analyze.Views.{key_eq}
use ha_dashboard_history.Analyze.Sections.{SectionSlot}
use ha_dashboard_history.Analyze.Anchor.{steps_eq}
use ha_dashboard_history.Analyze.Settle.Pigeonhole.{Has, Differ, nothing_missing}
use ha_dashboard_history.Analyze.Settle.{Slot, count_places, cards_place, cards_of}

-- A removed card sits in the list of a section.
abbrev pub sits : SectionSlot → Slot → Bool
sits s t = key_eq t.view_key s.view_key && (t.location == cards_place s.index)

-- Two removed cards of the list have different indices.
abbrev pub ApartIn : SectionSlot → Slot → Slot → Type 0
ApartIn s t u = sits s t ≡ true → sits s u ≡ true → t.index ≢ u.index

abbrev card_count : Option (List Value) → ℕ
card_count none = 0
card_count (some cards) = length cards

-- The index of a removed card of the list is one of the list.
abbrev pub Within : SectionSlot → Slot → Type 0
Within s t = sits s t ≡ true → t.index < card_count (cards_of s.section)

-- The removed cards that sit in a section are cards of it, none of them twice.
abbrev pub AreCards : List Slot → SectionSlot → Type 0
AreCards gone s = Ordered (ApartIn s) gone × All (Within s) gone

-- The card at an index of the section is among the removed ones.
abbrev pub IsGoneAt : List Slot → SectionSlot → ℕ → Type 0
IsGoneAt gone s i = (t : Slot) × Elem t gone × (sits s t ≡ true) × (t.index ≡ i)

-- Each card of a list whose first card has an index is.
abbrev pub AllGone : List Slot → SectionSlot → ℕ → List Value → Type 0
AllGone gone s i [] = Unit
AllGone gone s i (card ∷ cards) = IsGoneAt gone s i × AllGone gone s (suc i) cards

indices_in : SectionSlot → List Slot → List ℕ
indices_in s [] = []
indices_in s (t ∷ gone) = let rest = indices_in s gone in if sits s t then t.index ∷ rest else rest

length-indices_in :
    (s : SectionSlot) (gone : List Slot)
    → length (indices_in s gone) ≡ count_places gone s.view_key (cards_place s.index)
unfolding indices_in count_places
length-indices_in s [] = refl
length-indices_in s (t ∷ gone) = elim (Bool-cases (sits s t)) [
  | inl e ↦ rw (e, indices_in, count_places) (omega (arith, length-indices_in s gone))
  | inr e ↦ rw (e, indices_in, count_places) (length-indices_in s gone)
]

All-indices_in :
    (P : ℕ → Type 0) (s : SectionSlot) (gone : List Slot)
    → All (λ t. sits s t ≡ true → P t.index) gone
    → All P (indices_in s gone)
unfolding indices_in
All-indices_in P s [] h = tt
All-indices_in P s (t ∷ gone) h = elim (Bool-cases (sits s t)) [
  | inl e ↦ rw (e, indices_in) (h.0 e, All-indices_in P s gone h.1)
  | inr e ↦ rw (e, indices_in) (All-indices_in P s gone h.1)
]

All-given :
    (s : SectionSlot) (t : Slot) (gone : List Slot)
    → sits s t ≡ true
    → All (ApartIn s t) gone
    → All (λ u. sits s u ≡ true → t.index ≢ u.index) gone
All-given s t [] e h = tt
All-given s t (u ∷ gone) e h = (h.0 e, All-given s t gone e h.1)

Ordered-indices_in :
    (s : SectionSlot) (gone : List Slot)
    → Ordered (ApartIn s) gone
    → Ordered Differ (indices_in s gone)
unfolding indices_in
Ordered-indices_in s [] h = tt
Ordered-indices_in s (t ∷ gone) h = elim (Bool-cases (sits s t)) [
  | inl e ↦
      rw (e, indices_in)
        (
          All-indices_in (Differ t.index) s gone (All-given s t gone e h.0),
          Ordered-indices_in s gone h.1,
        )
  | inr e ↦ rw (e, indices_in) (Ordered-indices_in s gone h.1)
]

behind_one :
    (s : SectionSlot) (t : Slot) (gone : List Slot) (i : ℕ)
    → IsGoneAt gone s i
    → IsGoneAt (t ∷ gone) s i
behind_one s t gone i (u, (m, at), there, is) = (u, (suc m, at), there, is)

Has-indices_in :
    (s : SectionSlot) (gone : List Slot) (i : ℕ) → Has i (indices_in s gone) → IsGoneAt gone s i
unfolding indices_in
Has-indices_in s [] i h = absurd h
Has-indices_in s (t ∷ gone) i h = elim (Bool-cases (sits s t)) [
  | inl e ↦
      let now : indices_in s (t ∷ gone) ≡ t.index ∷ indices_in s gone = rw (e, indices_in) refl in
      elim (subst (Has i) now h) [
        | inl same ↦ (t, (zero, refl), e, same)
        | inr there ↦ behind_one s t gone i (Has-indices_in s gone i there)
      ]
  | inr e ↦
      let now : indices_in s (t ∷ gone) ≡ indices_in s gone = rw (e, indices_in) refl in
      behind_one s t gone i (Has-indices_in s gone i (subst (Has i) now h))
]

-- As many removed cards as there are: each card is one of them.
AllGone-of :
    (gone : List Slot) (s : SectionSlot) (n i : ℕ) (cards : List Value)
    → Ordered Differ (indices_in s gone)
    → All (λ j. j < n) (indices_in s gone)
    → n ≤ length (indices_in s gone)
    → i + length cards ≡ n
    → AllGone gone s i cards
AllGone-of gone s n i [] o below enough e = tt
AllGone-of gone s n i (card ∷ cards) o below enough e = (
  Has-indices_in s gone i
      (nothing_missing n i (indices_in s gone) o below enough (omega (arith, e))),
  AllGone-of gone s n (suc i) cards o below enough (omega (arith, e)),
)

pub AllGone-counted :
    (gone : List Slot) (s : SectionSlot) (cards : List Value)
    → AreCards gone s
    → cards_of s.section ≡ some cards
    → count_places gone s.view_key (cards_place s.index) ≡ length cards
    → AllGone gone s 0 cards
AllGone-counted gone s cards (apart, within) has counted =
    let size : card_count (cards_of s.section) ≡ length cards = ap card_count has in
    let below : All (λ j. j < length cards) (indices_in s gone) =
      subst (λ n. All (λ j. j < n) (indices_in s gone)) size
        (All-indices_in (λ j. j < card_count (cards_of s.section)) s gone within) in
    AllGone-of gone s (length cards) 0 cards (Ordered-indices_in s gone apart) below
      (omega (arith, length-indices_in s gone, counted)) (omega arith)
