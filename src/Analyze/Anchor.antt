-- ===== src/Analyze/Anchor.antt =====
-- analyze/matching.py: `_section_marks`, `_same_marks`, `_section_drift` and `_section_anchor`. A set of places is
-- the list of them.
pub mod Proves
pub mod RoundTrip
use ha_dashboard_history.Base.{
  ℕ, zero, suc, Bool, true, false, not, ◌&&◌, ◌||◌, List, [], ◌∷◌, ◌↔◌, ◌≡◌, refl, arith, Option,
  none, some, Text, eqb, ltb, get_elem?, length, contains, if◌then◌else◌, ◌==◌, list_eq, nat_eq, Eq,
  list_beq_iff, eqb_iff,
}
use ha_dashboard_history.Value.{Value, null, obj, Fields, get_or_null, list}
use ha_dashboard_history.Restore.Types.{Step, key, index, SectionAnchor, Result, ok, ◌>>=◌}
use ha_dashboard_history.Restore.Place.{list_or_empty, sections_key, cards_key}
use ha_dashboard_history.Analyze.Views.{own, fingerprint}

unfoldable pub step_eq : Step → Step → Bool
step_eq (key k) (key l) = k == l
step_eq (index n) (index m) = eqb n m
step_eq _ _ = false

pub step_eq_iff : (s t : Step) → (step_eq s t ≡ true) ↔ (s ≡ t)
unfolding step_eq
step_eq_iff (key k) (key l) = ground (arith, list_beq_iff k l)
step_eq_iff (key k) (index m) = ground arith
step_eq_iff (index n) (key l) = ground arith
step_eq_iff (index n) (index m) = ground (arith, eqb_iff n m)

instance abbrev pub steps_eq : Eq Step
steps_eq = record { equal = step_eq; equal_iff = step_eq_iff }

-- A card's place: the location of its list, and its position there.
abbrev pub Spot : Type 0
Spot = List Step × ℕ

unfoldable pub is_in : Spot → List Spot → Bool
is_in spot [] = false
is_in (location, n) ((l, m) ∷ spots) = (location == l && eqb n m) || is_in (location, n) spots

mark_of : Value → Value
mark_of (obj section) = own (obj section)
mark_of v = null

marks_of : List Value → List Value
unfolding mark_of
marks_of [] = []
marks_of (s ∷ sections) = mark_of s ∷ marks_of sections

unfoldable pub section_marks : Fields → Result (List Value)
unfolding marks_of
section_marks view = do
  sections ← list_or_empty (get_or_null sections_key view)
  ok (marks_of sections)

unfoldable pub same_marks : Fields → Fields → Result Bool
same_marks one other = do
  here ← section_marks one
  there ← section_marks other
  ok (fingerprint (list here) == fingerprint (list there))

-- The cards that stay, how many of them stood ahead, and those that left for another list.
pub record Neighbours : Type 0 where
  pub survivors : List Value
  pub before : ℕ
  pub away : List Value

-- A neighbour in front of the others.
unfoldable pub add_neighbour : Bool → Bool → Bool → Value → Neighbours → Neighbours
add_neighbour has_left is_departed is_ahead card rest =
    if has_left
    then record {
      survivors = rest.survivors;
      before = rest.before;
      away = if is_departed then card ∷ rest.away else rest.away;
    }
    else record {
      survivors = card ∷ rest.survivors;
      before = if is_ahead then suc rest.before else rest.before;
      away = rest.away;
    }

unfoldable pub neighbours_from : List Step → ℕ → List Spot → List Spot → ℕ → List Value → Neighbours
unfolding add_neighbour is_in
neighbours_from location at left departed n [] = record { survivors = []; before = 0; away = [] }
neighbours_from location at left departed n (card ∷ cards) =
    let rest = neighbours_from location at left departed (suc n) cards in
    add_neighbour (is_in (location, n) left) (is_in (location, n) departed) (ltb n at) card rest

unfoldable pub anchor_from :
    List Step → ℕ → List Spot → List Spot → List Value → Option Value → Result SectionAnchor
unfolding neighbours_from
anchor_from location at left departed sections (some (obj section)) = do
  cards ← list_or_empty (get_or_null cards_key section)
  let found = neighbours_from location at left departed 0 cards
  ok (record {
    sections = length sections;
    settings = own (obj section);
    survivors = found.survivors;
    before = found.before;
    departed = found.away;
  })
anchor_from location at left departed sections _ = ok (record {
  sections = length sections;
  settings = null;
  survivors = [];
  before = 0;
  departed = [];
})

-- The section that a location names, where the index is one.
unfoldable pub section_of : List Value → Step → Option Value
section_of sections (index n) = get_elem? sections n
section_of sections (key k) = none

unfoldable pub section_anchor :
    Fields → List Step → ℕ → List Spot → List Spot → Result (Option SectionAnchor)
unfolding anchor_from section_of
section_anchor view (key k ∷ step ∷ location) at left departed =
    if not (k == sections_key) then ok none else do
      sections ← list_or_empty (get_or_null sections_key view)
      anchor ←
          anchor_from (key k ∷ step ∷ location) at left departed sections (section_of sections step)
      ok (some anchor)
section_anchor view _ at left departed = ok none
