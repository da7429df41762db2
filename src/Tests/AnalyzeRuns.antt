-- ===== src/Tests/AnalyzeRuns.antt =====
-- Comparing two states: each theorem at concrete views.
use ha_dashboard_history.Base.{
  ℕ, ◌≡◌, ◌⊎◌, lookup, list_beq, ◌≤◌, refl, List, [], ◌∷◌, none, some, codes, true, false, All,
  Ordered, arith, length, sort_by,
}
use Prim.Native.String.{String}
use ha_dashboard_history.Value.{
  Value, str, list, obj, Fields, field, end, get, get_or_null, to_list, of_list, as_list, truthy,
  py_eq, size,
}
use ha_dashboard_history.Value.Laws.{IsDict, end_ok, field_ok, str_ok}
use ha_dashboard_history.Analyze.Views.{
  ViewKey, key_eq, path, section_list, by_position, views_by_key,
}
use ha_dashboard_history.Analyze.Sections.{
  SectionSlot, SectionPair, found, slots_from, pair_view_sections, moved, kept_flags, in_old_order,
  chosen, left_out,
}
use ha_dashboard_history.Analyze.Sections.Runs.{Rises}
use ha_dashboard_history.Analyze.Sections.Moved.{StandsBefore, kept-StandsBefore, moved-IsFewest}
use ha_dashboard_history.Analyze.Sections.Pairing.{IsPairing, pair_view_sections-IsPairing}
use ha_dashboard_history.Analyze.Sections.LeftOver.{Differs, pair_view_sections-Differs}
use ha_dashboard_history.Analyze.Positions.{
  positions_lie, positions_differ, view_type, is_recognised, all_there, all_recognised, views_in,
}
use ha_dashboard_history.Analyze.Positions.Standing.{pathless_at}
use ha_dashboard_history.Analyze.Positions.Trusted.{Alike, positions_lie-Alike}
use ha_dashboard_history.Analyze.Settle.{
  Slot, cards_of, cards_place, pair_sections_from, settle_sections,
}
use ha_dashboard_history.Analyze.Settle.Counted.{AreCards}
use ha_dashboard_history.Analyze.Settle.Whole.{IsGone, settle_sections-IsGone}
use ha_dashboard_history.Restore.Types.{ok}
use ha_dashboard_history.Restore.Place.{list_or_empty}
use ha_dashboard_history.Analyze.Settings.{setting_leaves}
use ha_dashboard_history.Analyze.Settings.Located.{IsFound, setting_leaves-IsFound}

abbrev text : String → Value
text s = str (codes s)

abbrev home : ViewKey
home = path (text "home")

abbrev slot : ℕ → SectionSlot
slot n = record { view_key = home; view_index = 0; index = n; section = obj end }

abbrev pair : ℕ → ℕ → SectionPair
pair n m = record { old = slot n; new = slot m; how = found }

-- Three sections, the first of which went to the end.
abbrev rotated : List SectionPair
rotated = pair 0 2 ∷ pair 1 0 ∷ pair 2 1 ∷ []

kept-StandsBefore_example :
    Ordered StandsBefore (chosen (kept_flags (in_old_order rotated)) (in_old_order rotated))
kept-StandsBefore_example = kept-StandsBefore rotated

others-Rise : Ordered Rises (chosen (false ∷ true ∷ true ∷ []) (in_old_order rotated))
unfolding in_old_order sort_by chosen
others-Rise = ((omega arith, tt), (tt, tt))

moved-IsFewest_example :
    length (moved rotated) ≤ length (left_out (false ∷ true ∷ true ∷ []) (in_old_order rotated))
moved-IsFewest_example = moved-IsFewest rotated (false ∷ true ∷ true ∷ []) others-Rise

abbrev titled : String → Value
titled s = obj (field (codes "title") (text s) end)

abbrev with_sections : List Value → Fields
with_sections sections = field (codes "sections") (list sections) end

abbrev one : Fields
one = with_sections (titled "a" ∷ titled "b" ∷ [])

abbrev other : Fields
other = with_sections (titled "b" ∷ titled "c" ∷ [])

pair_view_sections-IsPairing_example :
    IsPairing
      (slots_from home 0 0 (section_list one))
      (slots_from home 0 0 (section_list other))
      (pair_view_sections home 0 one 0 other).pairs
pair_view_sections-IsPairing_example = pair_view_sections-IsPairing home 0 one 0 other

pair_view_sections-Differs_example :
    All
      (λ o. All (Differs o) (pair_view_sections home 0 one 0 other).rest_new)
      (pair_view_sections home 0 one 0 other).rest_old
pair_view_sections-Differs_example = pair_view_sections-Differs home 0 one 0 other

abbrev light : Fields
light = field (codes "theme") (text "light") end

abbrev dark : Fields
dark = field (codes "theme") (text "dark") end

light-IsDict : IsDict light
unfolding get
light-IsDict = field_ok refl (str_ok (codes "light")) end_ok

dark-IsDict : IsDict dark
unfolding get
dark-IsDict = field_ok refl (str_ok (codes "dark")) end_ok

setting_leaves-IsFound_example :
    All (IsFound light dark) (setting_leaves none (obj light) (some (obj dark)) [])
setting_leaves-IsFound_example = setting_leaves-IsFound none light dark light-IsDict dark-IsDict

-- One view with a title and no path.
abbrev lonely : Fields
lonely = field (codes "views") (list (titled "a" ∷ titled "b" ∷ [])) end

lonely-trusted : positions_lie lonely lonely ≡ ok false
unfolding positions_lie positions_differ is_recognised all_there all_recognised views_in by_position
    views_by_key lookup list_or_empty get_or_null get list_beq to_list of_list truthy py_eq size
lonely-trusted = refl

abbrev two_views : List Value
two_views = titled "a" ∷ titled "b" ∷ []

lonely-views : views_in lonely ≡ ok two_views
unfolding views_in list_or_empty get_or_null get list_beq to_list of_list truthy
lonely-views = refl

positions_lie-Alike_example :
    ((length two_views ≡ 1) × (length two_views ≡ 1))
    ⊎ Alike (pathless_at two_views 1) (pathless_at two_views 1)
positions_lie-Alike_example =
    positions_lie-Alike lonely lonely two_views two_views 1 lonely-views lonely-views (omega arith)
      lonely-trusted

abbrev carded : Fields
carded = with_sections (obj (field (codes "cards") (list (text "x" ∷ [])) end) ∷ [])

abbrev gone_card : Slot
gone_card = record {
  view_key = home;
  view_index = 0;
  view = carded;
  location = cards_place 0;
  index = 0;
  card = text "x";
  mark = [];
}

abbrev old_views : List (ViewKey × Fields)
old_views = (home, carded) ∷ []

abbrev new_views : List (ViewKey × Fields)
new_views = (home, with_sections []) ∷ []

rest-AreCards : All (AreCards (gone_card ∷ [])) (pair_sections_from 0 old_views new_views).rest_old
unfolding pair_sections_from key_eq py_eq list_beq view_type truthy get_or_null get
    pair_view_sections slots_from section_list as_list to_list of_list cards_of
rest-AreCards = (((tt, tt), (λ e. omega arith, tt)), tt)

settle_sections-IsGone_example :
    All
      (IsGone old_views new_views
        (pair_sections_from 0 old_views new_views).rest_old
        (gone_card ∷ []))
      (settle_sections old_views new_views
        (pair_sections_from 0 old_views new_views)
        (gone_card ∷ [])
        []).removed
settle_sections-IsGone_example =
    settle_sections-IsGone old_views new_views (pair_sections_from 0 old_views new_views)
      (gone_card ∷ []) [] rest-AreCards
