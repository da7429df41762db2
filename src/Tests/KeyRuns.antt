-- ===== src/Tests/KeyRuns.antt =====
-- Keys: each theorem at a concrete input.
use ha_dashboard_history.Base.{
  ◌≡◌, refl, List, [], ◌∷◌, Option, some, Text, codes, true, not, ◌&&◌, contains, list_eq, nat_eq,
  list_beq,
}
use ha_dashboard_history.Keys.{deletions_to_record, is_live, is_absent}
use ha_dashboard_history.Keys.Gone.{contains-deletions_to_record, is_live-deletions_to_record}

abbrev energy : Text
energy = codes "energy"

abbrev tracked : List Text
tracked = codes "lights" ∷ energy ∷ energy ∷ []

abbrev known : Option (List Text)
known = some (codes "lights" ∷ [])

contains-deletions_to_record_example :
    contains energy (deletions_to_record tracked known)
    ≡ (contains energy tracked && is_absent energy known)
contains-deletions_to_record_example = contains-deletions_to_record energy tracked known

energy-tracked : contains energy tracked ≡ true
unfolding contains list_beq
energy-tracked = refl

is_live-deletions_to_record_example :
    is_live energy tracked known ≡ not (contains energy (deletions_to_record tracked known))
is_live-deletions_to_record_example =
    is_live-deletions_to_record energy tracked known energy-tracked
