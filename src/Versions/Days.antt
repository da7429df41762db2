-- ===== src/Versions/Days.antt =====
-- versions.py: the local calendar day of a recorded state, and which day a mark is about.
pub mod Window
pub mod Marks
pub mod Title
use ha_dashboard_history.Base.{
  ℕ, zero, suc, ◌+◌, ◌-◌, ◌*◌, ◌/◌, Bool, true, false, ◌&&◌, not, List, [], ◌∷◌, map, Option, none,
  some, Text, eqb, leb, take, get_elem?, lookup, ◌==◌, list_eq, nat_eq, if◌then◌else◌,
}
use ha_dashboard_history.Base.Int.{ℤ, pos_part, neg_part}
use ha_dashboard_history.Records.{Change, Version}
use ha_dashboard_history.Versions.Description.{read_description}

-- A `tzinfo`: the offset from UTC, in seconds, at each instant.
abbrev pub Zone : Type 0
Zone = ℕ → ℤ

-- A `date`, as its ordinal (`date.toordinal`): 1 is the first day of year 1.
abbrev pub Day : Type 0
Day = ℕ

-- `datetime.fromtimestamp(timestamp, zone).date()`. Day 719163 begins at timestamp 0 of UTC.
unfoldable pub local_day : ℕ → Zone → Day
local_day timestamp zone =
    (719163 * 86400 + timestamp + pos_part (zone timestamp) - neg_part (zone timestamp)) / 86400

unfoldable pub same_day : ℕ → ℕ → Zone → Bool
same_day one other zone = eqb (local_day one zone) (local_day other zone)

-- `next((at for at in range(…) if not same_day(stamps[at], stamps[0], zone)), None)`
first_other_day : ℕ → Zone → ℕ → List ℕ → Option ℕ
first_other_day first zone at [] = none
first_other_day first zone at (s ∷ stamps) = elim (same_day s first zone) [
  | true ↦ first_other_day first zone (suc at) stamps
  | false ↦ some at
]

unfoldable pub end_of_previous_day : List ℕ → Zone → Option ℕ
unfolding first_other_day
end_of_previous_day [] zone = none
end_of_previous_day (first ∷ stamps) zone = first_other_day first zone 1 stamps

abbrev pub recent_states : ℕ
recent_states = 20

-- `[v for v in marks if local_day(v.timestamp, zone) >= day and read_description(…)[1]]`
unfoldable pub marks_since : Day → List Version → Zone → List Version
marks_since day [] zone = []
marks_since day (v ∷ marks) zone =
    let rest = marks_since day marks zone in
    if leb day (local_day v.timestamp zone) && (read_description v.description).1
    then v ∷ rest
    else rest

-- Whether a mark whose state has a known time is about the day.
unfoldable pub mark_is_about : Day → List (Text × ℕ) → Zone → Version → Bool
mark_is_about day times zone v = elim (lookup v.revision times) [
  | none ↦ false
  | some time ↦ eqb (local_day time zone) day
]

unfoldable pub day_is_marked : Day → List Version → List (Text × ℕ) → Zone → Bool
day_is_marked day [] times zone = false
day_is_marked day (v ∷ marks) times zone = elim (mark_is_about day times zone v) [
  | true ↦ true
  | false ↦ day_is_marked day marks times zone
]

-- `recent[at - 1].revision == revision`; at is never 0, and the index is in range.
abbrev at_revision : List Change → Option ℕ → Text → Bool
at_revision recent none revision = false
at_revision recent (some zero) revision = false
at_revision recent (some (suc i)) revision = elim (get_elem? recent i) [
  | none ↦ false
  | some change ↦ change.revision == revision
]

unfoldable pub would_be_marked_again : Text → List Change → ℕ → Zone → Bool
would_be_marked_again revision recent now zone =
    let window = take recent_states (now ∷ map (λ (c : Change). c.timestamp) recent) in
    at_revision recent (end_of_previous_day window zone) revision
