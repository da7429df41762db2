-- ===== src/Versions/Days/Window.antt =====
-- Where `end_of_previous_day` finds the end of the day before.
use ha_dashboard_history.Base.{
  ℕ, zero, suc, ◌+◌, ◌≡◌, refl, List, [], ◌∷◌, Option, none, some, true, false, get_elem?, All,
  take, arith, Bool-cases, inl, inr, eqb_iff,
}
use ha_dashboard_history.Versions.Days.{Zone, same_day, first_other_day, end_of_previous_day}

abbrev pub SameDayAs : ℕ → Zone → ℕ → Type 0
SameDayAs first zone s = same_day s first zone ≡ true

-- What the answer says of the entries: at the index stands the first one of another day than the
-- newest, or there is none of another day.
abbrev pub Answers : ℕ → Zone → List ℕ → Option ℕ → Type 0
Answers first zone stamps none = All (SameDayAs first zone) stamps
Answers first zone stamps (some at) =
    ((s : ℕ) × (get_elem? stamps at ≡ some s) × (same_day s first zone ≡ false))
    × All (SameDayAs first zone) (take at stamps)

-- The search that starts at index `at`, over what stands there.
abbrev AnswersFrom : ℕ → Zone → ℕ → List ℕ → Option ℕ → Type 0
AnswersFrom first zone at stamps none = Answers first zone stamps none
AnswersFrom first zone at stamps (some i) =
    (k : ℕ) × (i ≡ at + k) × Answers first zone stamps (some k)

later :
    (first : ℕ) (zone : Zone) (at s : ℕ) (stamps : List ℕ) (o : Option ℕ)
    → same_day s first zone ≡ true
    → AnswersFrom first zone (suc at) stamps o
    → AnswersFrom first zone at (s ∷ stamps) o
later first zone at s stamps none e h = (e, h)
later first zone at s stamps (some i) e (k, same, (found, before)) =
    (suc k, omega arith, (found, (e, before)))

first_other_day-AnswersFrom :
    (first : ℕ) (zone : Zone) (at : ℕ) (stamps : List ℕ)
    → AnswersFrom first zone at stamps (first_other_day first zone at stamps)
unfolding first_other_day
first_other_day-AnswersFrom first zone at [] = tt
first_other_day-AnswersFrom first zone at (s ∷ stamps) = elim (Bool-cases (same_day s first zone)) [
  | inl e ↦
      rw (e, first_other_day)
        (later first zone at s stamps _ e (first_other_day-AnswersFrom first zone (suc at) stamps))
  | inr e ↦ rw (e, first_other_day) (zero, omega arith, ((s, refl, e), tt))
]

same_day_refl : (s : ℕ) (zone : Zone) → same_day s s zone ≡ true
unfolding same_day
same_day_refl s zone = (eqb_iff _ _).1 refl

-- The answer, if there is one, is the index of the first entry that falls on another local day
-- than the newest; without one, every entry falls on the day of the newest.
pub end_of_previous_day-Answers :
    (first : ℕ) (stamps : List ℕ) (zone : Zone)
    → Answers first zone (first ∷ stamps) (end_of_previous_day (first ∷ stamps) zone)
unfolding end_of_previous_day
end_of_previous_day-Answers first stamps zone =
    shifted (first_other_day first zone 1 stamps) (first_other_day-AnswersFrom first zone 1 stamps)
  where
    shifted :
        (o : Option ℕ) → AnswersFrom first zone 1 stamps o → Answers first zone (first ∷ stamps) o
    shifted none h = (same_day_refl first zone, h)
    shifted (some i) (k, same, (found, before)) =
        let e : i ≡ suc k = omega arith in rw e (found, (same_day_refl first zone, before))
