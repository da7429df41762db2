-- ===== src/Tests/VersionRuns.antt =====
-- Versions and days: each theorem at a concrete input.
use ha_dashboard_history.Base.{
  ℕ, ◌≡◌, refl, List, [], ◌∷◌, ◌++◌, some, Text, codes, true, Elem, get_elem?, strip, Ordered,
  NotAfter,
}
use mathlib.Core.List.{Perm}
use ha_dashboard_history.Base.Int.{pos}
use ha_dashboard_history.Records.{Version}
use ha_dashboard_history.Versions.Number.{
  Parts, minor, parts_lt, latest, parse, candidates, version_name, by_number, highest,
  higher_number,
}
use ha_dashboard_history.Versions.Digits.{show, show_before, digits}
use ha_dashboard_history.Versions.Number.RoundTrip.{parse-version_name, parse-version_name-newline}
use ha_dashboard_history.Versions.Number.Latest.{IsLatest, latest-IsLatest}
use ha_dashboard_history.Versions.Number.Next.{candidates_fresh, candidates_above}
use ha_dashboard_history.Versions.Number.ByNumber.{
  by_number-Ordered, highest-eq-head_by_number, first_if_numbered,
}
use ha_dashboard_history.Versions.Number.Owner.{parse-version_name_own}
use ha_dashboard_history.Versions.Description.{
  automatic_description, read_description, read_description-automatic_description,
}
use ha_dashboard_history.Versions.Days.{Zone, end_of_previous_day}
use ha_dashboard_history.Versions.Days.Window.{Answers, end_of_previous_day-Answers}

abbrev energy : Text
energy = codes "energy"

abbrev energy_tags : List Text
energy_tags =
    codes "energy/v1.9.0"
    ∷ codes "energy/v1.10.0"
    ∷ codes "other/v7.0.0"
    ∷ codes "energy/latest"
    ∷ []

tagged : get_elem? energy_tags 1 ≡ some (version_name energy (1, 10, 0))
unfolding version_name show show_before digits
tagged = refl

parse-version_name_example : parse energy (version_name energy (1, 10, 0)) ≡ some (1, 10, 0)
parse-version_name_example = parse-version_name energy (1, 10, 0)

parse-version_name-newline_example :
    parse energy (version_name energy (1, 0, 2) ++ b'\n' ∷ []) ≡ some (1, 0, 2)
parse-version_name-newline_example = parse-version_name-newline energy (1, 0, 2)

parse-version_name_own_example : energy ≡ energy
parse-version_name_own_example =
    parse-version_name_own energy energy (1, 10, 0) (1, 10, 0)
      (parse-version_name energy (1, 10, 0))

latest-IsLatest_example : IsLatest energy energy_tags (latest energy energy_tags)
latest-IsLatest_example = latest-IsLatest energy energy_tags

candidates_fresh_example : ¬ Elem ((candidates energy energy_tags).at_level minor) energy_tags
candidates_fresh_example = candidates_fresh energy energy_tags minor

candidates_above_example :
    (q : Parts) × (parse energy ((candidates energy energy_tags).at_level minor) ≡ some q)
    × (parts_lt (1, 10, 0) q ≡ true)
candidates_above_example =
    candidates_above energy energy_tags minor (version_name energy (1, 10, 0)) (1, 10, 0)
      (1, tagged) (parse-version_name energy (1, 10, 0))

by_number-Ordered_example :
    Perm (by_number (λ t. t) energy energy_tags) energy_tags
    × Ordered (NotAfter (higher_number (λ t. t) energy)) (by_number (λ t. t) energy energy_tags)
by_number-Ordered_example = by_number-Ordered (λ t. t) energy energy_tags

highest-eq-head_by_number_example :
    highest (λ t. t) energy energy_tags
    ≡ first_if_numbered (λ t. t) energy (by_number (λ t. t) energy energy_tags)
highest-eq-head_by_number_example = highest-eq-head_by_number (λ t. t) energy energy_tags

read_description-automatic_description_example :
    read_description (automatic_description (codes " rain \n")) ≡ (strip (codes " rain \n"), true)
read_description-automatic_description_example =
    read_description-automatic_description (codes " rain \n")

abbrev utc : Zone
utc = λ _. pos 0

-- Two states of one day, and one of the day before.
end_of_previous_day-Answers_example :
    Answers 200000 utc
      (200000 ∷ 190000 ∷ 100000 ∷ [])
      (end_of_previous_day (200000 ∷ 190000 ∷ 100000 ∷ []) utc)
end_of_previous_day-Answers_example = end_of_previous_day-Answers 200000 (190000 ∷ 100000 ∷ []) utc

abbrev mark : Version
mark = record {
  name = codes "energy/v1.0.1";
  revision = codes "abc";
  title = [];
  description = codes "dashboard-history: automatic";
  timestamp = 200000;
  annotated = true;
}

abbrev times : List (Text × ℕ)
times = (codes "abc", 100000) ∷ []
