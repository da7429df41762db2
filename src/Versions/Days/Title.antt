-- ===== src/Versions/Days/Title.antt =====
-- versions.py: `day_title`, what an automatic version is called.
use ha_dashboard_history.Base.{
  ℕ, ◌+◌, ◌-◌, ◌*◌, ◌/◌, ◌%◌, List, [], ◌∷◌, ◌++◌, Option, none, some, Text, codes, leb, ltb,
  get_elem?, if◌then◌else◌,
}
use ha_dashboard_history.Versions.Digits.{show}
use ha_dashboard_history.Versions.Days.{Zone, Day, local_day}

pub record Date : Type 0 where
  pub year : ℕ
  pub month : ℕ
  pub day : ℕ

-- A year that begins in March: its number, and the number of the day in it from 0.
year_of_era : ℕ → ℕ
year_of_era doe = (doe - doe / 1460 + doe / 36524 - doe / 146096) / 365

day_of_year : ℕ → ℕ
unfolding year_of_era
day_of_year doe = let y = year_of_era doe in doe - (365 * y + y / 4 - y / 100)

-- `date.fromordinal`. Day 1 of the calendar is 306 days behind the first of March before it.
unfoldable pub date_of : Day → Date
unfolding year_of_era day_of_year
date_of ordinal =
    let z = ordinal + 305 in
    let doe = z % 146097 in
    let doy = day_of_year doe in
    let march = (5 * doy + 2) / 153 in
    let month = if ltb march 10 then march + 3 else march - 9 in
    record {
      year = year_of_era doe + 400 * (z / 146097) + (if leb month 2 then 1 else 0);
      month = month;
      day = doy - (153 * march + 2) / 5 + 1;
    }

abbrev pub months : List Text
months =
    codes "January"
    ∷ codes "February"
    ∷ codes "March"
    ∷ codes "April"
    ∷ codes "May"
    ∷ codes "June"
    ∷ codes "July"
    ∷ codes "August"
    ∷ codes "September"
    ∷ codes "October"
    ∷ codes "November"
    ∷ codes "December"
    ∷ []

-- `_MONTHS[when.month - 1]`, where a month is one of the twelve.
abbrev month_name : Option Text → Text
month_name none = []
month_name (some name) = name

unfoldable pub day_title : ℕ → Zone → Text
unfolding date_of show local_day
day_title timestamp zone =
    let when = date_of (local_day timestamp zone) in
    show when.day
    ++ (b' ' ∷ (month_name (get_elem? months (when.month - 1)) ++ (b' ' ∷ show when.year)))
