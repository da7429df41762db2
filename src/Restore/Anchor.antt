-- ===== src/Restore/Anchor.antt =====
-- restore.py: `_anchored_index`, `_departed_is_ambiguous`, `_section_gap_holds`, `_view_has_gone`.
pub mod Survivors
pub mod Sound
pub mod Complete
use ha_dashboard_history.Base.{
  ℕ, zero, suc, ◌-◌, Bool, true, false, ◌||◌, ◌&&◌, not, List, [], ◌∷◌, ◌++◌, Option, none, some,
  eqb, ltb, length, get_elem?, if◌then◌else◌, is_nil,
}
use ha_dashboard_history.Value.{
  Value, null, obj, Fields, get_or_null, without, py_eq, is_null, as_dict, list, to_list,
}
use ha_dashboard_history.Value.Dump.{same_value}
use ha_dashboard_history.Restore.Types.{
  Step, key, index, SectionAnchor, RemovedItem, Result, ok, refused, broken, index_error, ◌>>=◌,
  or_refuse,
}
use ha_dashboard_history.Restore.Place.{list_or_empty, cards_key, sections_key}

-- `[other for other in cards if _same_value(other, card)]`, with the section's index for each.
holders_in : ℕ → Value → List Value → List ℕ
holders_in j card [] = []
holders_in j card (other ∷ cards) =
    let rest = holders_in j card cards in if same_value other card then j ∷ rest else rest

-- The index of its section for every copy of the card in the view.
holders : ℕ → Value → List Value → Result (List ℕ)
unfolding holders_in
holders j card [] = ok []
holders j card (obj section ∷ sections) = do
  cards ← list_or_empty (get_or_null cards_key section)
  rest ← holders (suc j) card sections
  ok (holders_in j card cards ++ rest)
holders j card (_ ∷ sections) = holders (suc j) card sections

-- Whether the section at an index has these settings, everything but its cards.
has_settings : Value → Option Value → Bool
has_settings settings (some (obj section)) = same_value (obj (without cards_key section)) settings
has_settings settings _ = false

one_ambiguous : List Value → ℕ → Value → List ℕ → Bool
unfolding has_settings
one_ambiguous sections at settings [] = false
one_ambiguous sections at settings (j ∷ []) =
    not (eqb j at) && has_settings settings (get_elem? sections j)
one_ambiguous sections at settings (j ∷ k ∷ more) = true

unfoldable pub departed_is_ambiguous : List Value → ℕ → Value → List Value → Result Bool
unfolding holders one_ambiguous
departed_is_ambiguous sections at settings [] = ok false
departed_is_ambiguous sections at settings (card ∷ departed) = do
  held ← holders 0 card sections
  rest ← departed_is_ambiguous sections at settings departed
  ok (one_ambiguous sections at settings held || rest)

-- `while position < len(cards) and cards[position] != wanted`: the position of the first card that
-- equals the wanted one, and the cards behind it.
seek : Value → ℕ → List Value → Option (ℕ × List Value)
seek wanted position [] = none
seek wanted position (card ∷ cards) =
    if py_eq card wanted then some (position, cards) else seek wanted (suc position) cards

-- The position of each survivor, each one looked for behind the last.
pub found_positions : ℕ → List Value → List Value → Option (List ℕ)
unfolding seek
found_positions position cards [] = some []
found_positions position cards (wanted ∷ survivors) = elim (seek wanted position cards) [
  | none ↦ none
  | some (at, rest) ↦ elim (found_positions (suc at) rest survivors) [
    | none ↦ none
    | some found ↦ some (at ∷ found)
  ]
]

-- `found[before - 1] + 1 if before else found[0]`
pub place_after : ℕ → List ℕ → Result ℕ
place_after zero found = or_refuse index_error (get_elem? found 0)
place_after (suc before) found = do at ← or_refuse index_error (get_elem? found before); ok (suc at)

-- With survivors: between the last of them that stood ahead and the cards behind it.
beside : SectionAnchor → List Value → Result (Option ℕ)
unfolding found_positions place_after
beside anchor cards = elim (found_positions 0 cards anchor.survivors) [
  | none ↦ ok none
  | some found ↦ (do at ← place_after anchor.before found; ok (some at))
]

unfoldable pub only_empty : List Value → Option ℕ
only_empty cards = if is_nil cards then some 0 else none

-- Without survivors: only an empty section, and only where no neighbour that left is ambiguous.
alone_in : List Value → ℕ → SectionAnchor → Fields → Result (Option ℕ)
unfolding departed_is_ambiguous only_empty
alone_in sections at anchor section = do
  ambiguous ← departed_is_ambiguous sections at anchor.settings anchor.departed
  if ambiguous
      then ok none
      else do cards ← list_or_empty (get_or_null cards_key section); ok (only_empty cards)

beside_in : SectionAnchor → Fields → Result (Option ℕ)
unfolding beside
beside_in anchor section = do
  cards ← list_or_empty (get_or_null cards_key section)
  beside anchor cards

-- The section at the index, which is a dict: its settings first, then its cards.
in_section : List Value → ℕ → SectionAnchor → Fields → Result (Option ℕ)
unfolding alone_in beside_in
in_section sections at anchor section =
    if not (same_value (obj (without cards_key section)) anchor.settings)
    then ok none
    else if is_nil anchor.survivors
    then alone_in sections at anchor section
    else beside_in anchor section

-- `item.location[1]`, if it is an index.
pub section_index : List Step → Result (Option ℕ)
section_index (_ ∷ index at ∷ location) = ok (some at)
section_index (_ ∷ key k ∷ location) = ok none
section_index _ = refused index_error

at_section : List Value → SectionAnchor → Option ℕ → Result (Option ℕ)
unfolding in_section
at_section sections anchor none = ok none
at_section sections anchor (some at) = elim (get_elem? sections at) [
  | some (obj section) ↦ in_section sections at anchor section
  | _ ↦ ok none
]

-- Where a card goes back in its section, or none where that is not proven.
unfoldable pub anchored_index : Fields → List Step → SectionAnchor → Result (Option ℕ)
unfolding section_index at_section
anchored_index view location anchor = do
  sections ← list_or_empty (get_or_null sections_key view)
  if not (eqb (length sections) anchor.sections)
      then ok none
      else do at ← section_index location; at_section sections anchor at

-- `==` on lists.
unfoldable pub lists_eq : List Value → List Value → Bool
lists_eq [] [] = true
lists_eq (x ∷ xs) (y ∷ ys) = py_eq x y && lists_eq xs ys
lists_eq _ _ = false

unfoldable pub section_gap_holds : Fields → Option (List Value) → Result Bool
unfolding lists_eq
section_gap_holds view none = ok false
section_gap_holds view (some neighbours) = do
  sections ← list_or_empty (get_or_null sections_key view)
  ok (lists_eq sections neighbours)

stands_in : Value → List Value → Bool
stands_in payload [] = false
stands_in payload (view ∷ views) = py_eq view payload || stands_in payload views

unfoldable pub view_has_gone : List Value → RemovedItem → Bool
unfolding stands_in
view_has_gone views item =
    if is_null item.view_path then not (stands_in item.payload views) else true
