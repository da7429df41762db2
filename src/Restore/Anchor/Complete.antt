-- ===== src/Restore/Anchor/Complete.antt =====
-- A section that holds exactly the survivors proves the index behind those that stood ahead.
use ha_dashboard_history.Base.{
  ℕ, zero, suc, ◌+◌, ◌≤◌, ◌<◌, ◌≡◌, refl, ap, ◌∙◌, List, [], ◌∷◌, some, true, false, arith, length,
  get_elem?, is_nil, eqb, eqb_iff, All, Text,
}
use ha_dashboard_history.Value.{Value, obj, Fields, get_or_null, without}
use ha_dashboard_history.Value.Dump.{same_value}
use ha_dashboard_history.Value.Laws.{IsValue, py_eq_refl}
use ha_dashboard_history.Restore.Types.{Step, key, index, SectionAnchor, ok}
use ha_dashboard_history.Restore.Place.{list_or_empty, cards_key, sections_key}
use ha_dashboard_history.Restore.Anchor.{
  seek, found_positions, place_after, beside, only_empty, alone_in, beside_in, in_section,
  section_index, at_section, anchored_index, departed_is_ambiguous,
}

-- The positions from `n` on, as many as the list has elements.
positions : ℕ → List Value → List ℕ
positions n [] = []
positions n (x ∷ xs) = n ∷ positions (suc n) xs

seek_self :
    (n : ℕ) (c : Value) (cards : List Value) → IsValue c → seek c n (c ∷ cards) ≡ some (n, cards)
unfolding seek
seek_self n c cards good = rw (py_eq_refl good) refl

found_positions_self :
    (n : ℕ) (cards : List Value)
    → All IsValue cards
    → found_positions n cards cards ≡ some (positions n cards)
unfolding found_positions positions
found_positions_self n [] good = refl
found_positions_self n (c ∷ cards) good =
    rw (seek_self n c cards good.0, found_positions)
      (rw (found_positions_self (suc n) cards good.1, found_positions) refl)

get_elem?-positions :
    (n i : ℕ) (cards : List Value)
    → i < length cards
    → get_elem? (positions n cards) i ≡ some (n + i)
unfolding positions
get_elem?-positions n i [] h = absurd (omega arith)
get_elem?-positions n zero (c ∷ cards) h = ap some (omega arith)
get_elem?-positions n (suc i) (c ∷ cards) h =
    get_elem?-positions (suc n) i cards (omega arith) ∙ ap some (omega arith)

place_after-positions :
    (i : ℕ) (c : Value) (cards : List Value)
    → i ≤ length (c ∷ cards)
    → place_after i (positions 0 (c ∷ cards)) ≡ ok i
unfolding place_after
place_after-positions zero c cards h = rw (get_elem?-positions 0 0 (c ∷ cards) (omega arith)) refl
place_after-positions (suc i) c cards h =
    rw (get_elem?-positions 0 i (c ∷ cards) (omega arith)) (ap (λ k. ok (suc k)) (omega arith))

alone_in_empty :
    (sections : List Value) (at : ℕ) (anchor : SectionAnchor) (section : Fields)
    → anchor.departed ≡ []
    → list_or_empty (get_or_null cards_key section) ≡ ok []
    → alone_in sections at anchor section ≡ ok (some 0)
unfolding alone_in departed_is_ambiguous only_empty
alone_in_empty sections at anchor section d c =
    let clear : departed_is_ambiguous sections at anchor.settings anchor.departed ≡ ok false =
      ap (departed_is_ambiguous sections at anchor.settings) d in
    rw (clear, alone_in) (rw c refl)

beside_self :
    (anchor : SectionAnchor) (section : Fields) (x : Value) (xs : List Value)
    → anchor.survivors ≡ x ∷ xs
    → anchor.before ≤ length (x ∷ xs)
    → All IsValue (x ∷ xs)
    → list_or_empty (get_or_null cards_key section) ≡ ok (x ∷ xs)
    → beside_in anchor section ≡ ok (some anchor.before)
unfolding beside_in beside
beside_self anchor section x xs e b good c =
    let sought : found_positions 0 (x ∷ xs) anchor.survivors ≡ some (positions 0 (x ∷ xs)) =
      ap (found_positions 0 (x ∷ xs)) e ∙ found_positions_self 0 (x ∷ xs) good in
    rw c (rw (sought, beside) (rw (place_after-positions anchor.before x xs b) refl))

in_section_complete :
    (sections : List Value) (at : ℕ) (anchor : SectionAnchor) (section : Fields)
    (survivors : List Value)
    → anchor.survivors ≡ survivors
    → anchor.departed ≡ []
    → anchor.before ≤ length survivors
    → All IsValue survivors
    → same_value (obj (without cards_key section)) anchor.settings ≡ true
    → list_or_empty (get_or_null cards_key section) ≡ ok survivors
    → in_section sections at anchor section ≡ ok (some anchor.before)
unfolding in_section
in_section_complete sections at anchor section [] e d b good s c =
    let zeroth : 0 ≡ anchor.before = omega arith in
    let none_left : is_nil anchor.survivors ≡ true = ap is_nil e in
    rw (s, in_section)
      (rw (none_left, in_section)
        (alone_in_empty sections at anchor section d c ∙ ap (λ i. ok (some i)) zeroth))
in_section_complete sections at anchor section (x ∷ xs) e d b good s c =
    let some_left : is_nil anchor.survivors ≡ false = ap is_nil e in
    rw (s, in_section) (rw (some_left, in_section) (beside_self anchor section x xs e b good c))

-- Where the view has as many sections as it had, the section at the index has the old settings, and its
-- cards are exactly the survivors, `_anchored_index` answers the number of those that stood ahead. No
-- neighbour has left for another list.
pub anchored_index_complete :
    (view : Fields) (k : Text) (at : ℕ) (location : List Step) (anchor : SectionAnchor)
    (sections : List Value) (section : Fields)
    → list_or_empty (get_or_null sections_key view) ≡ ok sections
    → length sections ≡ anchor.sections
    → get_elem? sections at ≡ some (obj section)
    → same_value (obj (without cards_key section)) anchor.settings ≡ true
    → list_or_empty (get_or_null cards_key section) ≡ ok anchor.survivors
    → anchor.departed ≡ []
    → anchor.before ≤ length anchor.survivors
    → All IsValue anchor.survivors
    → anchored_index view (key k ∷ index at ∷ location) anchor ≡ ok (some anchor.before)
unfolding anchored_index section_index at_section
anchored_index_complete view k at location anchor sections section v count there s c d b good =
    let counted : eqb (length sections) anchor.sections ≡ true = (eqb_iff _ _).1 count in
    rw v (
      rw (counted, anchored_index)
        (rw (there, at_section)
          (in_section_complete sections at anchor section anchor.survivors refl d b good s c)))
