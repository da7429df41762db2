-- ===== src/Analyze/Settle.antt =====
-- analyze/matching.py: `_pair_sections`, `_count_places`, `_whole` and `_settle_sections`, and the slots of
-- analyze/model.py. A dict of counts is the function that it is read as.
pub mod Pigeonhole
pub mod Counted
pub mod Whole
use ha_dashboard_history.Base.{
  ℕ, zero, suc, Bool, true, false, not, ◌&&◌, ◌||◌, List, [], ◌∷◌, ◌++◌, map, Option, none, some,
  Text, codes, eqb, length, if◌then◌else◌, ◌==◌, list_eq, nat_eq, sort_by, text_lt, is_nil,
}
use ha_dashboard_history.Base.Int.{ℤ}
use ha_dashboard_history.Value.{
  Value, bool, int, str, arr, obj, Fields, get_or_null, py_eq, to_list, as_list,
}
use ha_dashboard_history.Value.Dump.{dump_int}
use ha_dashboard_history.Versions.Digits.{show}
use ha_dashboard_history.Restore.Types.{Step, key, index}
use ha_dashboard_history.Restore.Place.{sections_key, cards_key}
use ha_dashboard_history.Analyze.Views.{ViewKey, path, position, key_eq, section_list}
use ha_dashboard_history.Analyze.Anchor.{steps_eq}
use ha_dashboard_history.Analyze.Positions.{view_type}
use ha_dashboard_history.Analyze.Sections.{
  SectionSlot, SectionPair, Paired, pair_view_sections, moved,
}

-- One card at its place.
pub record Slot : Type 0 where
  pub view_key : ViewKey
  pub view_index : ℕ
  pub view : Fields
  pub location : List Step
  pub index : ℕ
  pub card : Value
  pub mark : Text

-- The view under a key with its number among the views, the last one of equal keys.
unfoldable pub numbered_under : ViewKey → ℕ → List (ViewKey × Fields) → Option (ℕ × Fields)
numbered_under wanted n [] = none
numbered_under wanted n ((k, view) ∷ views) = elim (numbered_under wanted (suc n) views) [
  | none ↦ if key_eq k wanted then some (n, view) else none
  | some later ↦ some later
]

unfoldable pub add_paired : Paired → Paired → Paired
add_paired one rest = record {
  pairs = one.pairs ++ rest.pairs;
  rest_old = one.rest_old ++ rest.rest_old;
  rest_new = one.rest_new ++ rest.rest_new;
}

-- `_pair_view_sections` for every view that both states have in the same layout.
unfoldable pub pair_sections_from : ℕ → List (ViewKey × Fields) → List (ViewKey × Fields) → Paired
unfolding numbered_under add_paired
pair_sections_from n [] new_views = record { pairs = []; rest_old = []; rest_new = [] }
pair_sections_from n ((k, old_view) ∷ old_views) new_views =
    let rest = pair_sections_from (suc n) old_views new_views in
    elim (numbered_under k 0 new_views) [
      | none ↦ rest
      | some (m, new_view) ↦
          if not (py_eq (view_type old_view) (view_type new_view))
          then rest
          else add_paired (pair_view_sections k n old_view m new_view) rest
    ]

-- How many of the slots sit in a card list.
unfoldable pub count_places : List Slot → ViewKey → List Step → ℕ
count_places [] k location = 0
count_places (s ∷ slots) k location =
    let rest = count_places slots k location in
    if key_eq s.view_key k && (s.location == location) then suc rest else rest

abbrev pub cards_place : ℕ → List Step
cards_place n = key sections_key ∷ index n ∷ key cards_key ∷ []

unfoldable pub whole_cards :
    SectionSlot → (ViewKey → List Step → ℕ) → Bool → Option (List Value) → Bool
whole_cards slot counted empty_counts none = false
whole_cards slot counted empty_counts (some cards) =
    if is_nil cards
    then empty_counts
    else eqb (counted slot.view_key (cards_place slot.index)) (length cards)

-- The cards of a section that is a dict, where they are a list.
unfoldable pub cards_of : Value → Option (List Value)
cards_of (obj section) = as_list (get_or_null cards_key section)
cards_of v = none

unfoldable pub whole : SectionSlot → (ViewKey → List Step → ℕ) → Bool → Bool
unfolding whole_cards cards_of
whole slot counted empty_counts = whole_cards slot counted empty_counts (cards_of slot.section)

-- `str(key)`. A list and a dict are no keys.
unfoldable pub key_text : ViewKey → Text
key_text (path (str s)) = s
key_text (path (int n)) = dump_int n
key_text (path (bool b)) = codes "True"
key_text (path v) = []
key_text (position n) = codes "('#', " ++ (show n ++ codes ")")

unfoldable pub has_view_key : ViewKey → List ViewKey → Bool
has_view_key k [] = false
has_view_key k (j ∷ keys) = key_eq k j || has_view_key k keys

unfoldable pub distinct_keys : List ViewKey → List ViewKey
unfolding has_view_key
distinct_keys [] = []
distinct_keys (k ∷ keys) =
    let rest = distinct_keys keys in if has_view_key k rest then rest else k ∷ rest

unfoldable pub sorted_keys : List ViewKey → List ViewKey
unfolding distinct_keys key_text
sorted_keys keys = sort_by (λ k j. text_lt (key_text k) (key_text j)) (distinct_keys keys)

-- How many sections the view under a key has.
unfoldable pub section_count : List (ViewKey × Fields) → ViewKey → ℕ
unfolding numbered_under
section_count views k = elim (numbered_under k 0 views) [
  | none ↦ 0
  | some (n, view) ↦ length (section_list view)
]

unfoldable pub of_view : (SectionSlot → Bool) → ViewKey → List SectionSlot → List SectionSlot
of_view is_whole k [] = []
of_view is_whole k (s ∷ slots) =
    let rest = of_view is_whole k slots in
    if key_eq s.view_key k && is_whole s then s ∷ rest else rest

-- `if len(found) == 1: … .append(found[0])`
unfoldable pub if_single : List SectionSlot → List SectionSlot
if_single (s ∷ []) = s ∷ []
if_single _ = []

-- The whole sections of the views that have exactly one section more than on the other side.
unfoldable pub settled :
    (ViewKey → ℕ)
    → (ViewKey → ℕ)
    → (SectionSlot → Bool)
    → List SectionSlot
    → List ViewKey
    → List SectionSlot
unfolding of_view if_single
settled more fewer is_whole rest [] = []
settled more fewer is_whole rest (k ∷ keys) =
    let others = settled more fewer is_whole rest keys in
    if eqb (more k) (suc (fewer k)) then if_single (of_view is_whole k rest) ++ others else others

unfoldable pub moved_under : List SectionPair → ViewKey → List SectionPair
moved_under [] k = []
moved_under (p ∷ pairs) k =
    let rest = moved_under pairs k in if key_eq p.old.view_key k then p ∷ rest else rest

all_moved : List SectionPair → List ViewKey → List SectionPair
unfolding moved_under
all_moved pairs [] = []
all_moved pairs (k ∷ keys) = moved (moved_under pairs k) ++ all_moved pairs keys

unfoldable pub slot_eq : SectionSlot → SectionSlot → Bool
slot_eq s t =
    key_eq s.view_key t.view_key
    && (eqb s.view_index t.view_index && (eqb s.index t.index && py_eq s.section t.section))

is_among : SectionSlot → List SectionSlot → Bool
unfolding slot_eq
is_among s [] = false
is_among s (t ∷ slots) = slot_eq s t || is_among s slots

unfoldable pub less_slots : List SectionSlot → List SectionSlot → List SectionSlot
unfolding is_among
less_slots [] gone = []
less_slots (s ∷ slots) gone =
    let rest = less_slots slots gone in if is_among s gone then rest else s ∷ rest

pub record SectionMatching : Type 0 where
  pub pairs : List SectionPair
  pub moved_pairs : List SectionPair
  pub removed : List SectionSlot
  pub added : List SectionSlot
  pub rest_old : List SectionSlot
  pub rest_new : List SectionSlot

abbrev slot_key : SectionSlot → ViewKey
slot_key s = s.view_key

abbrev pair_key : SectionPair → ViewKey
pair_key p = p.old.view_key

-- `removed_cards` and `added_cards` are what the matching of the cards gave up on.
unfoldable pub settle_sections :
    List (ViewKey × Fields)
    → List (ViewKey × Fields)
    → Paired
    → List Slot
    → List Slot
    → SectionMatching
unfolding settled all_moved less_slots sorted_keys count_places whole section_count
settle_sections old_views new_views paired removed_cards added_cards =
    let old_count = section_count old_views in
    let new_count = section_count new_views in
    let removed =
      settled old_count new_count (λ s. whole s (count_places removed_cards) false) paired.rest_old
        (sorted_keys (map slot_key paired.rest_old)) in
    let added =
      settled new_count old_count (λ s. whole s (count_places added_cards) true) paired.rest_new
        (sorted_keys (map slot_key paired.rest_new)) in
    record {
      pairs = paired.pairs;
      moved_pairs = all_moved paired.pairs (sorted_keys (map pair_key paired.pairs));
      removed = removed;
      added = added;
      rest_old = less_slots paired.rest_old removed;
      rest_new = less_slots paired.rest_new added;
    }
