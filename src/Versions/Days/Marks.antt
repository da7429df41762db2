-- ===== src/Versions/Days/Marks.antt =====
-- `marks_since` leaves out no automatic mark that `day_is_marked` would find.
use ha_dashboard_history.Base.{
  ℕ, ◌≤◌, List, [], ◌∷◌, Option, none, some, Text, lookup, if◌then◌else◌, list_eq, nat_eq,
}
use ha_dashboard_history.Records.{Version}
use ha_dashboard_history.Versions.Description.{read_description}
use ha_dashboard_history.Versions.Days.{Zone, local_day}

-- Every version that was made automatically, whenever that was.
abbrev pub automatic_marks : List Version → List Version
automatic_marks [] = []
automatic_marks (v ∷ marks) =
    let rest = automatic_marks marks in
    if (read_description v.description).1 then v ∷ rest else rest

abbrev NoLater : ℕ → Zone → Option ℕ → Type 0
NoLater made zone none = Unit
NoLater made zone (some time) = local_day time zone ≤ local_day made zone

-- The tag of a mark is no older than the day of the state that it marks, where that is known.
abbrev pub MadeAfter : List (Text × ℕ) → Zone → Version → Type 0
MadeAfter times zone v = NoLater v.timestamp zone (lookup v.revision times)
