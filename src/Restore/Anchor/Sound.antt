-- ===== src/Restore/Anchor/Sound.antt =====
-- What an index that `_anchored_index` proves says of the section.
use ha_dashboard_history.Base.{
  ℕ, ◌≡◌, refl, ap, sym, ◌∙◌, List, [], ◌∷◌, Option, none, some, Bool, true, false, arith, length,
  get_elem?, Option-cases, Bool-cases, inl, inr, if◌then◌else◌, not, is_nil, eqb, eqb_iff, ◌⊎◌,
}
use ha_dashboard_history.Value.{Value, obj, Fields, get_or_null, without}
use ha_dashboard_history.Value.Dump.{same_value}
use ha_dashboard_history.Restore.Types.{
  Step, SectionAnchor, Result, ok, ◌>>=◌, >>=-eq-ok, ok_injective,
}
use ha_dashboard_history.Restore.Place.{list_or_empty, cards_key, sections_key}
use ha_dashboard_history.Restore.Anchor.Survivors.{IsBeside, place-IsBeside}
use ha_dashboard_history.Restore.Anchor.{
  found_positions, place_after, beside, only_empty, alone_in, beside_in, in_section, section_index,
  at_section, anchored_index, departed_is_ambiguous,
}

-- The place of a card in its section: alone in an empty one, or beside its survivors.
abbrev pub HasPlace : SectionAnchor → List Value → ℕ → Type 0
HasPlace anchor cards i =
    ((anchor.survivors ≡ []) × (cards ≡ []) × (i ≡ 0))
    ⊎ IsBeside 0 i cards anchor.survivors anchor.before

-- What has been checked of the section that the card goes back to.
pub record IsProven (view : Fields) (location : List Step) (anchor : SectionAnchor) (i : ℕ)
    : Type 0 where
  pub sections : List Value
  pub sections_eq : list_or_empty (get_or_null sections_key view) ≡ ok sections
  pub count : length sections ≡ anchor.sections
  pub at : ℕ
  pub at_eq : section_index location ≡ ok (some at)
  pub section : Fields
  pub stands : get_elem? sections at ≡ some (obj section)
  pub settings : same_value (obj (without cards_key section)) anchor.settings ≡ true
  pub cards : List Value
  pub cards_eq : list_or_empty (get_or_null cards_key section) ≡ ok cards
  pub place : HasPlace anchor cards i

beside-HasPlace :
    (anchor : SectionAnchor) (cards : List Value) (i : ℕ)
    → beside anchor cards ≡ ok (some i)
    → HasPlace anchor cards i
unfolding beside
beside-HasPlace anchor cards i h = elim (Option-cases (found_positions 0 cards anchor.survivors)) [
  | inl e ↦ absurd (ground arith)
  | inr (found, e) ↦
      let now : beside anchor cards ≡ (place_after anchor.before found >>= λ at. ok (some at)) =
        rw (e, beside) in
      let (at, p, h') = >>=-eq-ok (place_after anchor.before found) _ (sym now ∙ h) in
      let same : at ≡ i = cc in
      inr (place-IsBeside 0 cards anchor.survivors anchor.before found i e (p ∙ ap ok same))
]

only_empty-eq-some :
    (cards : List Value) (i : ℕ) → only_empty cards ≡ some i → (cards ≡ []) × (i ≡ 0)
unfolding only_empty
only_empty-eq-some [] i h = (refl, cc)
only_empty-eq-some (c ∷ cards) i h = absurd (cc)

nil_of_is_nil : (xs : List Value) → is_nil xs ≡ true → xs ≡ []
nil_of_is_nil [] h = refl
nil_of_is_nil (x ∷ xs) h = absurd (cc)

abbrev Answer : SectionAnchor → Fields → ℕ → Type 0
Answer anchor section i =
    (cards : List Value) × (list_or_empty (get_or_null cards_key section) ≡ ok cards)
    × HasPlace anchor cards i

when_clear :
    (cards_of : Result (List Value)) (b : Bool) (i : ℕ)
    → (if b then ok none else cards_of >>= λ cards. ok (only_empty cards)) ≡ ok (some i)
    → (cards : List Value) × (cards_of ≡ ok cards) × (cards ≡ []) × (i ≡ 0)
when_clear cards_of true i h = absurd (cc)
when_clear cards_of false i h =
    let (cards, e, h') = >>=-eq-ok cards_of _ h in
    let (empty, zero_eq) = only_empty-eq-some cards i (ok_injective h') in
    (cards, e, empty, zero_eq)

alone_in-Answer :
    (sections : List Value) (at : ℕ) (anchor : SectionAnchor) (section : Fields) (i : ℕ)
    → anchor.survivors ≡ []
    → alone_in sections at anchor section ≡ ok (some i)
    → Answer anchor section i
unfolding alone_in
alone_in-Answer sections at anchor section i none_left h =
    let (b, b_eq, h') =
      >>=-eq-ok (departed_is_ambiguous sections at anchor.settings anchor.departed) _ h in
    let (cards, e, empty, zero_eq) = when_clear _ b i h' in
    (cards, e, inl (none_left, empty, zero_eq))

beside_in-Answer :
    (anchor : SectionAnchor) (section : Fields) (i : ℕ)
    → beside_in anchor section ≡ ok (some i)
    → Answer anchor section i
unfolding beside_in
beside_in-Answer anchor section i h =
    let (cards, e, h') = >>=-eq-ok (list_or_empty (get_or_null cards_key section)) _ h in
    (cards, e, beside-HasPlace anchor cards i h')

in_section-Answer :
    (sections : List Value) (at : ℕ) (anchor : SectionAnchor) (section : Fields) (i : ℕ)
    → in_section sections at anchor section ≡ ok (some i)
    → (same_value (obj (without cards_key section)) anchor.settings ≡ true)
      × Answer anchor section i
unfolding in_section
in_section-Answer sections at anchor section i h =
    elim (Bool-cases (same_value (obj (without cards_key section)) anchor.settings)) [
      | inr other ↦
          let now : in_section sections at anchor section ≡ ok none = rw (other, in_section) in
          absurd (cc)
      | inl settings ↦ elim (Bool-cases (is_nil anchor.survivors)) [
        | inl none_left ↦
            let now : in_section sections at anchor section ≡ alone_in sections at anchor section =
              rw (settings, in_section) (rw (none_left, in_section)) in
            (
              settings,
              alone_in-Answer sections at anchor section i
                  (nil_of_is_nil anchor.survivors none_left) (sym now ∙ h),
            )
        | inr some_left ↦
            let now : in_section sections at anchor section ≡ beside_in anchor section =
              rw (settings, in_section) (rw (some_left, in_section)) in
            (settings, beside_in-Answer anchor section i (sym now ∙ h))
      ]
    ]

at_section-cases :
    (sections : List Value) (anchor : SectionAnchor) (at : ℕ) (o : Option Value) (i : ℕ)
    → get_elem? sections at ≡ o
    → at_section sections anchor (some at) ≡ ok (some i)
    → (section : Fields) × (o ≡ some (obj section))
      × (in_section sections at anchor section ≡ ok (some i))
unfolding at_section
at_section-cases sections anchor at none i e h = absurd (ground arith)
at_section-cases sections anchor at (some (obj section)) i e h = (section, refl, ground arith)
at_section-cases sections anchor at (some v) i e h = absurd (ground arith)

-- An index that `_anchored_index` answers is proven: the view has as many sections as it had, the
-- one at the old index is a dict with the old settings, and either it is empty and the card stood
-- alone, or its cards split there with the survivors that stood ahead of the card in front, and
-- the others behind, each in their old order.
pub anchored_index-IsProven :
    (view : Fields) (location : List Step) (anchor : SectionAnchor) (i : ℕ)
    → anchored_index view location anchor ≡ ok (some i)
    → IsProven view location anchor i
unfolding anchored_index
anchored_index-IsProven view location anchor i h =
    let (sections, s_eq, h₁) = >>=-eq-ok (list_or_empty (get_or_null sections_key view)) _ h in
    counted sections s_eq (eqb (length sections) anchor.sections) refl h₁
  where
    placed :
        (sections : List Value)
        → list_or_empty (get_or_null sections_key view) ≡ ok sections
        → length sections ≡ anchor.sections
        → (o : Option ℕ) → section_index location ≡ ok o
        → at_section sections anchor o ≡ ok (some i)
        → IsProven view location anchor i
    placed sections s_eq count none e h = absurd (ground arith)
    placed sections s_eq count (some at) e h =
        let (section, stands, h') = at_section-cases sections anchor at _ i refl h in
        let (settings, (cards, cards_eq, place)) =
          in_section-Answer sections at anchor section i h' in
        record {
          sections = sections;
          sections_eq = s_eq;
          count = count;
          at = at;
          at_eq = e;
          section = section;
          stands = stands;
          settings = settings;
          cards = cards;
          cards_eq = cards_eq;
          place = place;
        }

    counted :
        (sections : List Value)
        → list_or_empty (get_or_null sections_key view) ≡ ok sections
        → (b : Bool) → eqb (length sections) anchor.sections ≡ b
        → (if not b
            then ok none
            else section_index location >>= λ at. at_section sections anchor at)
          ≡ ok (some i)
        → IsProven view location anchor i
    counted sections s_eq false e h = absurd (cc)
    counted sections s_eq true e h =
        let (o, o_eq, h') = >>=-eq-ok (section_index location) _ h in
        placed sections s_eq ((eqb_iff (length sections) anchor.sections).0 e) o o_eq h'
