-- ===== src/Analyze/Slots.antt =====
-- analyze/model.py and analyze/matching.py: where a card's list is, in its own state and in the new one, and the
-- cards of the views that both states have. A set of view keys is a list of them.
use ha_dashboard_history.Base.{
  ℕ, suc, Bool, true, false, not, ◌&&◌, ◌||◌, List, [], ◌∷◌, ◌++◌, Option, none, some, Text, eqb,
  if◌then◌else◌, ◌==◌, list_eq, nat_eq,
}
use ha_dashboard_history.Value.{Value, Fields}
use ha_dashboard_history.Restore.Types.{Step, key, index, UndoPlan, UndoStep, Result, ok, ◌>>=◌}
use ha_dashboard_history.Restore.Place.{sections_key}
use ha_dashboard_history.Analyze.Views.{ViewKey, key_eq, views_by_key, fingerprint}
use ha_dashboard_history.Analyze.Anchor.{steps_eq}
use ha_dashboard_history.Analyze.Sections.{SectionSlot, SectionPair, How, settings}
use ha_dashboard_history.Analyze.Settle.{Slot, SectionMatching, cards_place, has_view_key}

-- `(view key, old section index) -> new index`, for every paired section.
abbrev pub Translation : Type 0
Translation = List (ViewKey × ℕ × ℕ)

unfoldable pub new_index : ViewKey → ℕ → Translation → Option ℕ
new_index k n [] = none
new_index k n ((j, old, new) ∷ translate) =
    if key_eq j k && eqb old n then some new else new_index k n translate

abbrev pub Place : Type 0
Place = ViewKey × List Step

unfoldable pub place_of : Slot → Place
place_of slot = (slot.view_key, slot.location)

unfoldable pub place_eq : Place → Place → Bool
place_eq (k, location) (j, other) = key_eq k j && (location == other)

-- The second step of a location of three that begins with `sections`.
unfoldable pub section_step : List Step → Option Step
section_step (key k ∷ step ∷ last ∷ []) = if k == sections_key then some step else none
section_step location = none

-- The new index of the section, where it is paired.
unfoldable pub paired_index : ViewKey → Step → Translation → Option ℕ
unfolding new_index
paired_index k (index n) translate = new_index k n translate
paired_index k (key other) translate = none

unfoldable pub translated : Slot → Translation → Place
unfolding paired_index place_of section_step
translated slot translate = elim (section_step slot.location) [
  | none ↦ place_of slot
  | some step ↦ elim (paired_index slot.view_key step translate) [
    | none ↦ place_of slot
    | some m ↦ (slot.view_key, cards_place m)
  ]
]

unfoldable pub unpaired : Slot → Translation → Bool
unfolding paired_index section_step
unpaired slot translate = elim (section_step slot.location) [
  | none ↦ false
  | some step ↦ elim (paired_index slot.view_key step translate) [ none ↦ true | some m ↦ false ]
]

unfoldable pub same_place : Translation → Slot → Slot → Bool
unfolding translated place_of place_eq
same_place translate old new = place_eq (translated old translate) (place_of new)

is_whole_gone : Slot → List SectionSlot → Bool
is_whole_gone slot [] = false
is_whole_gone slot (s ∷ sections) =
    (key_eq slot.view_key s.view_key && (slot.location == cards_place s.index))
    || is_whole_gone slot sections

-- `loose_removed` and `loose_added`: less the cards of the sections that went or came whole.
unfoldable pub loose : List Slot → List SectionSlot → List Slot
unfolding is_whole_gone
loose [] sections = []
loose (slot ∷ slots) sections =
    let rest = loose slots sections in if is_whole_gone slot sections then rest else slot ∷ rest

slots_of_list : ViewKey → ℕ → Fields → List Step → ℕ → List Value → List Slot
slots_of_list k view_index view location n [] = []
slots_of_list k view_index view location n (card ∷ cards) =
    record {
      view_key = k;
      view_index = view_index;
      view = view;
      location = location;
      index = n;
      card = card;
      mark = fingerprint card;
    }
    ∷ slots_of_list k view_index view location (suc n) cards

slots_of_lists : ViewKey → ℕ → Fields → List (List Step × List Value) → List Slot
unfolding slots_of_list
slots_of_lists k view_index view [] = []
slots_of_lists k view_index view ((location, cards) ∷ lists) =
    slots_of_list k view_index view location 0 cards ++ slots_of_lists k view_index view lists

slots_from_views :
    (Fields → Result (List (List Step × List Value)))
    → List ViewKey
    → ℕ
    → List (ViewKey × Fields)
    → Result (List Slot)
unfolding slots_of_lists
slots_from_views containers keys n [] = ok []
slots_from_views containers keys n ((k, view) ∷ views) = do
  rest ← slots_from_views containers keys (suc n) views
  if not (has_view_key k keys)
      then ok rest
      else do lists ← containers view; ok (slots_of_lists k n view lists ++ rest)

unfoldable pub slots :
    Fields → List ViewKey → (Fields → Result (List (List Step × List Value))) → Result (List Slot)
unfolding slots_from_views
slots config keys containers = do
  views ← views_by_key config
  slots_from_views containers keys 0 views

slot_keys : List SectionSlot → List ViewKey
slot_keys [] = []
slot_keys (s ∷ sections) = s.view_key ∷ slot_keys sections

pair_keys : List SectionPair → List ViewKey
pair_keys [] = []
pair_keys (p ∷ pairs) = p.old.view_key ∷ pair_keys pairs

abbrev is_settings : How → Bool
is_settings settings = true
is_settings how = false

settings_keys : List SectionPair → List ViewKey
settings_keys [] = []
settings_keys (p ∷ pairs) =
    let rest = settings_keys pairs in if is_settings p.how then p.old.view_key ∷ rest else rest

-- `SectionMatching.views`
unfoldable pub matching_views : SectionMatching → List ViewKey
unfolding slot_keys pair_keys settings_keys
matching_views matching =
    pair_keys matching.moved_pairs
    ++ (settings_keys matching.pairs
        ++ (slot_keys matching.removed
            ++ (slot_keys matching.added
                ++ (slot_keys matching.rest_old ++ slot_keys matching.rest_new))))

parked_labels : List UndoStep → List Text
parked_labels [] = []
parked_labels (s ∷ steps) =
    let rest = parked_labels steps in if s.parked then s.label ∷ rest else rest

-- `UndoPlan.parked`
unfoldable pub plan_parked : UndoPlan → List Text
unfolding parked_labels
plan_parked plan = parked_labels plan.steps
