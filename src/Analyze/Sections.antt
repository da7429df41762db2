-- ===== src/Analyze/Sections.antt =====
-- analyze/matching.py: `_pair_view_sections` and `_moved`. The loops hand on what is claimed so far.
pub mod Pairing
pub mod Runs
pub mod Moved
pub mod LeftOver
use ha_dashboard_history.Base.{
  ℕ, zero, suc, ◌-◌, max, Bool, true, false, not, ◌&&◌, ◌||◌, List, [], ◌∷◌, ◌++◌, map, Option,
  none, some, Text, eqb, ltb, contains, get_elem?, if◌then◌else◌, ◌==◌, nat_eq, list_eq, sort_by,
}
use ha_dashboard_history.Value.{Value, obj, Fields, get_or_null}
use ha_dashboard_history.Restore.Place.{cards_key}
use ha_dashboard_history.Analyze.Views.{ViewKey, section_list, own, fingerprint}

pub record SectionSlot : Type 0 where
  pub view_key : ViewKey
  pub view_index : ℕ
  pub index : ℕ
  pub section : Value

-- The pass that found a pair.
pub data How : Type 0 where
  same found settings cards : How

pub record SectionPair : Type 0 where
  pub old : SectionSlot
  pub new : SectionSlot
  pub how : How

unfoldable pub slots_from : ViewKey → ℕ → ℕ → List Value → List SectionSlot
slots_from view_key view_index n [] = []
slots_from view_key view_index n (s ∷ sections) =
    record { view_key = view_key; view_index = view_index; index = n; section = s }
    ∷ slots_from view_key view_index (suc n) sections

-- `taken_old` and `taken_new` are the indices in the pairs so far.
abbrev pub is_taken_old : SectionSlot → List SectionPair → Bool
is_taken_old slot [] = false
is_taken_old slot (p ∷ pairs) = eqb slot.index p.old.index || is_taken_old slot pairs

abbrev pub is_taken_new : SectionSlot → List SectionPair → Bool
is_taken_new slot [] = false
is_taken_new slot (p ∷ pairs) = eqb slot.index p.new.index || is_taken_new slot pairs

abbrev pub claim : SectionSlot → SectionSlot → How → List SectionPair → List SectionPair
claim old new how pairs = pairs ++ record { old = old; new = new; how = how } ∷ []

abbrev pub same_mark : SectionSlot → SectionSlot → Bool
same_mark old new = fingerprint old.section == fingerprint new.section

-- Identical at the same index.
unfoldable pub same_pass : List SectionSlot → List SectionSlot → List SectionPair → List SectionPair
same_pass (old ∷ olds) (new ∷ news) pairs =
    same_pass olds news (if same_mark old new then claim old new same pairs else pairs)
same_pass _ _ pairs = pairs

unfoldable pub first_free : SectionSlot → List SectionSlot → List SectionPair → Option SectionSlot
first_free old [] pairs = none
first_free old (new ∷ news) pairs =
    if not (is_taken_new new pairs) && same_mark old new
    then some new
    else first_free old news pairs

unfoldable pub claim_found : SectionSlot → Option SectionSlot → List SectionPair → List SectionPair
claim_found old none pairs = pairs
claim_found old (some new) pairs = claim old new found pairs

-- Identical anywhere else in the view: each old one takes the first free new one.
unfoldable pub found_pass :
    List SectionSlot → List SectionSlot → List SectionPair → List SectionPair
unfolding first_free claim_found
found_pass [] news pairs = pairs
found_pass (old ∷ olds) news pairs =
    found_pass olds news
      (if is_taken_old old pairs then pairs else claim_found old (first_free old news pairs) pairs)

-- The same cards under other settings, or the same settings over other cards.
unfoldable pub how_alike : Value → Value → Option How
how_alike (obj old) (obj new) =
    let same_cards =
      fingerprint (get_or_null cards_key old) == fingerprint (get_or_null cards_key new) in
    let same_own = fingerprint (own (obj old)) == fingerprint (own (obj new)) in
    if same_cards && not same_own
    then some settings
    else if same_own && not same_cards
    then some cards
    else none
how_alike _ _ = none

unfoldable pub claim_alike :
    SectionSlot → SectionSlot → Option How → List SectionPair → List SectionPair
claim_alike old new none pairs = pairs
claim_alike old new (some how) pairs = claim old new how pairs

unfoldable pub alike_pass :
    List SectionSlot → List SectionSlot → List SectionPair → List SectionPair
unfolding how_alike claim_alike
alike_pass (old ∷ olds) (new ∷ news) pairs = alike_pass olds news (
    if is_taken_old old pairs || is_taken_new new pairs
    then pairs
    else claim_alike old new (how_alike old.section new.section) pairs)
alike_pass _ _ pairs = pairs

unfoldable pub rest_of : (SectionSlot → Bool) → List SectionSlot → List SectionSlot
rest_of taken [] = []
rest_of taken (s ∷ slots) = let rest = rest_of taken slots in if taken s then rest else s ∷ rest

pub record Paired : Type 0 where
  pub pairs : List SectionPair
  pub rest_old : List SectionSlot
  pub rest_new : List SectionSlot

unfoldable pub pair_slots : List SectionSlot → List SectionSlot → List SectionPair
unfolding same_pass found_pass alike_pass
pair_slots olds news = alike_pass olds news (found_pass olds news (same_pass olds news []))

unfoldable pub pair_view_sections : ViewKey → ℕ → Fields → ℕ → Fields → Paired
unfolding pair_slots rest_of
pair_view_sections key old_index old_view new_index new_view =
    let olds = slots_from key old_index 0 (section_list old_view) in
    let news = slots_from key new_index 0 (section_list new_view) in
    let pairs = pair_slots olds news in
    record {
      pairs = pairs;
      rest_old = rest_of (λ s. is_taken_old s pairs) olds;
      rest_new = rest_of (λ s. is_taken_new s pairs) news;
    }

-- `longest[i]` from the entries behind it: one more than the longest run that goes on above.
unfoldable pub raise : ℕ → ℕ → List SectionPair → List ℕ → ℕ
raise at best (p ∷ pairs) (l ∷ longest) =
    raise at (if ltb at p.new.index then max best (suc l) else best) pairs longest
raise at best _ _ = best

unfoldable pub longest_runs : List SectionPair → List ℕ
unfolding raise
longest_runs [] = []
longest_runs (p ∷ pairs) =
    let longest = longest_runs pairs in raise p.new.index 1 pairs longest ∷ longest

unfoldable pub max_of : List ℕ → ℕ
max_of [] = 0
max_of (l ∷ ls) = max l (max_of ls)

-- `pair.new.index > last`, where nothing is kept yet and `last` is -1.
abbrev pub is_above : Option ℕ → ℕ → Bool
is_above none at = true
is_above (some last) at = ltb last at

-- Whether each pair is kept: `need and longest[i] == need and pair.new.index > last`.
unfoldable pub keeps : ℕ → Option ℕ → List SectionPair → List ℕ → List Bool
keeps need last (p ∷ pairs) (l ∷ longest) =
    if not (eqb need 0) && (eqb l need && is_above last p.new.index)
    then true ∷ keeps (need - 1) (some p.new.index) pairs longest
    else false ∷ keeps need last pairs longest
keeps need last _ _ = []

-- The entries with the flag true, and the others.
unfoldable pub chosen : {A : Type 0} → List Bool → List A → List A
chosen [] xs = []
chosen (b ∷ bs) [] = []
chosen (true ∷ bs) (x ∷ xs) = x ∷ chosen bs xs
chosen (false ∷ bs) (x ∷ xs) = chosen bs xs

unfoldable pub left_out : {A : Type 0} → List Bool → List A → List A
left_out [] xs = xs
left_out (b ∷ bs) [] = []
left_out (true ∷ bs) (x ∷ xs) = left_out bs xs
left_out (false ∷ bs) (x ∷ xs) = x ∷ left_out bs xs

unfoldable pub in_old_order : List SectionPair → List SectionPair
in_old_order = sort_by (λ p q. ltb p.old.index q.old.index)

unfoldable pub kept_flags : List SectionPair → List Bool
unfolding longest_runs max_of keeps
kept_flags ordered =
    let longest = longest_runs ordered in keeps (max_of longest) none ordered longest

unfoldable pub moved : List SectionPair → List SectionPair
unfolding kept_flags left_out in_old_order
moved pairs = let ordered = in_old_order pairs in left_out (kept_flags ordered) ordered
