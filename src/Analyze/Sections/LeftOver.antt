-- ===== src/Analyze/Sections/LeftOver.antt =====
-- What `_pair_view_sections` leaves over on both sides has nothing in common.
use ha_dashboard_history.Base.{
  ℕ, ◌≡◌, refl, inl, inr, ◌⊎◌, Bool, true, false, ◌||◌, List, [], ◌∷◌, ◌++◌, Option, none, some,
  arith, All, if◌then◌else◌, Bool-cases, eqb, eqb_iff,
}
use ha_dashboard_history.Value.{Fields}
use ha_dashboard_history.Analyze.Views.{ViewKey, section_list}
use ha_dashboard_history.Analyze.Sections.{
  SectionSlot, How, found, SectionPair, slots_from, is_taken_old, is_taken_new, claim, same_mark,
  same_pass, first_free, claim_found, found_pass, how_alike, claim_alike, alike_pass, rest_of,
  pair_slots, pair_view_sections,
}

-- What is taken stays taken.
abbrev Extends : List SectionPair → List SectionPair → Type 0
Extends pairs more =
    ((s : SectionSlot) → is_taken_old s pairs ≡ true → is_taken_old s more ≡ true)
    × ((s : SectionSlot) → is_taken_new s pairs ≡ true → is_taken_new s more ≡ true)

taken_old-append :
    (s : SectionSlot) (pairs : List SectionPair) (p : SectionPair)
    → is_taken_old s (pairs ++ p ∷ []) ≡ (is_taken_old s pairs || eqb s.index p.old.index)
taken_old-append s [] p = ground arith
taken_old-append s (q ∷ pairs) p = ground (arith, taken_old-append s pairs p)

taken_new-append :
    (s : SectionSlot) (pairs : List SectionPair) (p : SectionPair)
    → is_taken_new s (pairs ++ p ∷ []) ≡ (is_taken_new s pairs || eqb s.index p.new.index)
taken_new-append s [] p = ground arith
taken_new-append s (q ∷ pairs) p = ground (arith, taken_new-append s pairs p)

claim-Extends :
    (old new : SectionSlot) (how : How) (pairs : List SectionPair)
    → Extends pairs (claim old new how pairs)
claim-Extends old new how pairs = (
  λ s h. ground (arith, taken_old-append s pairs (record { old = old; new = new; how = how })),
  λ s h. ground (arith, taken_new-append s pairs (record { old = old; new = new; how = how })),
)

Extends-trans :
    (one two three : List SectionPair) → Extends one two → Extends two three → Extends one three
Extends-trans one two three h k = (λ s t. k.0 s (h.0 s t), λ s t. k.1 s (h.1 s t))

Extends-refl : (pairs : List SectionPair) → Extends pairs pairs
Extends-refl pairs = (λ s h. h, λ s h. h)

claim_found-Extends :
    (o : SectionSlot) (free : Option SectionSlot) (b : Bool) (pairs : List SectionPair)
    → Extends pairs (if b then pairs else claim_found o free pairs)
unfolding claim_found
claim_found-Extends o free true pairs = Extends-refl pairs
claim_found-Extends o none false pairs = Extends-refl pairs
claim_found-Extends o (some n) false pairs = claim-Extends o n found pairs

found_pass-Extends :
    (olds news : List SectionSlot) (pairs : List SectionPair)
    → Extends pairs (found_pass olds news pairs)
unfolding found_pass
found_pass-Extends [] news pairs = Extends-refl pairs
found_pass-Extends (o ∷ olds) news pairs =
    Extends-trans pairs _ _
      (claim_found-Extends o (first_free o news pairs) (is_taken_old o pairs) pairs)
      (found_pass-Extends olds news _)

claim_alike-Extends :
    (o n : SectionSlot) (how : Option How) (b : Bool) (pairs : List SectionPair)
    → Extends pairs (if b then pairs else claim_alike o n how pairs)
unfolding claim_alike
claim_alike-Extends o n how true pairs = Extends-refl pairs
claim_alike-Extends o n none false pairs = Extends-refl pairs
claim_alike-Extends o n (some how) false pairs = claim-Extends o n how pairs

alike_pass-Extends :
    (olds news : List SectionSlot) (pairs : List SectionPair)
    → Extends pairs (alike_pass olds news pairs)
unfolding alike_pass
alike_pass-Extends [] news pairs = Extends-refl pairs
alike_pass-Extends (o ∷ olds) [] pairs = Extends-refl pairs
alike_pass-Extends (o ∷ olds) (n ∷ news) pairs =
    Extends-trans pairs _ _
      (claim_alike-Extends o n (how_alike o.section n.section)
        (is_taken_old o pairs || is_taken_new n pairs) pairs)
      (alike_pass-Extends olds news _)

-- The slot is paired, or everything like it on the other side is.
abbrev Used : SectionSlot → List SectionPair → SectionSlot → Type 0
Used o pairs n = (is_taken_new n pairs ≡ true) ⊎ (same_mark o n ≡ false)

abbrev Settled : List SectionSlot → List SectionPair → SectionSlot → Type 0
Settled news pairs o = (is_taken_old o pairs ≡ true) ⊎ All (Used o pairs) news

Used-Extends :
    (o : SectionSlot) (pairs more : List SectionPair) (news : List SectionSlot)
    → Extends pairs more
    → All (Used o pairs) news
    → All (Used o more) news
Used-Extends o pairs more [] e h = tt
Used-Extends o pairs more (n ∷ news) e h =
    (elim h.0 [ inl t ↦ inl (e.1 n t) | inr d ↦ inr d ], Used-Extends o pairs more news e h.1)

Settled-Extends :
    (o : SectionSlot) (pairs more : List SectionPair) (news : List SectionSlot)
    → Extends pairs more
    → Settled news pairs o
    → Settled news more o
Settled-Extends o pairs more news e (inl t) = inl (e.0 o t)
Settled-Extends o pairs more news e (inr h) = inr (Used-Extends o pairs more news e h)

first_free-none :
    (o : SectionSlot) (news : List SectionSlot) (pairs : List SectionPair)
    → first_free o news pairs ≡ none
    → All (Used o pairs) news
unfolding first_free
first_free-none o [] pairs h = tt
first_free-none o (n ∷ news) pairs h = elim (Bool-cases (is_taken_new n pairs)) [
  | inl t ↦ (inl t, first_free-none o news pairs (ground arith))
  | inr f ↦ elim (Bool-cases (same_mark o n)) [
    | inl e ↦ absurd (ground arith)
    | inr d ↦ (inr d, first_free-none o news pairs (ground arith))
  ]
]

claim_found-Settled :
    (o : SectionSlot) (news : List SectionSlot) (pairs : List SectionPair) (b : Bool)
    (free : Option SectionSlot)
    → is_taken_old o pairs ≡ b
    → first_free o news pairs ≡ free
    → Settled news (if b then pairs else claim_found o free pairs) o
unfolding claim_found
claim_found-Settled o news pairs true free e f = inl e
claim_found-Settled o news pairs false none e f = inr (first_free-none o news pairs f)
claim_found-Settled o news pairs false (some n) e f = inl (
    ground (
      arith,
      taken_old-append o pairs (record { old = o; new = n; how = found }),
      eqb_iff o.index o.index,
    ))

found_pass-Settled :
    (olds news : List SectionSlot) (pairs : List SectionPair)
    → All (Settled news (found_pass olds news pairs)) olds
unfolding found_pass
found_pass-Settled [] news pairs = tt
found_pass-Settled (o ∷ olds) news pairs = (
  Settled-Extends o _ _ news (found_pass-Extends olds news _)
      (claim_found-Settled o news pairs (is_taken_old o pairs) (first_free o news pairs) refl refl),
  found_pass-Settled olds news _,
)

Settled-All :
    (olds news : List SectionSlot) (pairs more : List SectionPair)
    → Extends pairs more
    → All (Settled news pairs) olds
    → All (Settled news more) olds
Settled-All [] news pairs more e h = tt
Settled-All (o ∷ olds) news pairs more e h =
    (Settled-Extends o pairs more news e h.0, Settled-All olds news pairs more e h.1)

abbrev pub Differs : SectionSlot → SectionSlot → Type 0
Differs o n = same_mark o n ≡ false

new_side :
    (o : SectionSlot) (news : List SectionSlot) (pairs : List SectionPair)
    → All (Used o pairs) news
    → All (Differs o) (rest_of (λ n. is_taken_new n pairs) news)
unfolding rest_of
new_side o [] pairs h = tt
new_side o (n ∷ news) pairs (inl t, h) = rw t (new_side o news pairs h)
new_side o (n ∷ news) pairs (inr d, h) = elim (Bool-cases (is_taken_new n pairs)) [
  | inl t ↦ rw t (new_side o news pairs h)
  | inr f ↦ rw f (d, new_side o news pairs h)
]

old_side :
    (olds news : List SectionSlot) (pairs : List SectionPair)
    → All (Settled news pairs) olds
    → All
        (λ o. All (Differs o) (rest_of (λ n. is_taken_new n pairs) news))
        (rest_of (λ o. is_taken_old o pairs) olds)
unfolding rest_of
old_side [] news pairs h = tt
old_side (o ∷ olds) news pairs (inl t, h) = rw t (old_side olds news pairs h)
old_side (o ∷ olds) news pairs (inr used, h) = elim (Bool-cases (is_taken_old o pairs)) [
  | inl t ↦ rw t (old_side olds news pairs h)
  | inr f ↦ rw f (new_side o news pairs used, old_side olds news pairs h)
]

-- No section that is left over of the old view is identical to one that is left over of the new view.
pub pair_view_sections-Differs :
    (key : ViewKey) (old_index : ℕ) (old_view : Fields) (new_index : ℕ) (new_view : Fields)
    → All
        (λ o.
          All (Differs o) (pair_view_sections key old_index old_view new_index new_view).rest_new)
        (pair_view_sections key old_index old_view new_index new_view).rest_old
unfolding pair_view_sections pair_slots
pair_view_sections-Differs key old_index old_view new_index new_view =
    let olds = slots_from key old_index 0 (section_list old_view) in
    let news = slots_from key new_index 0 (section_list new_view) in
    old_side olds news (pair_slots olds news) (
      unfold pair_slots in
      Settled-All olds news _ _ (alike_pass-Extends olds news _)
        (found_pass-Settled olds news (same_pass olds news [])))
