-- ===== src/Milestones/Guards.antt =====
-- What the guards of `_async_mark_day` tell where they let a state pass.
use ha_dashboard_history.Base.{
  ℕ, ◌≡◌, ◌≢◌, refl, sym, subst, ◌∙◌, inl, inr, Bool, true, false, List, [], ◌∷◌, Option, none,
  some, Text, lookup, eqb, eqb_iff, is_nil, list_eq, nat_eq, list_beq_iff, All, arith, get_elem?,
  zero, suc, Bool-cases,
}
use ha_dashboard_history.Records.{Change, Version}
use ha_dashboard_history.Versions.Days.{Zone, Day, local_day, mark_is_about, day_is_marked}
use ha_dashboard_history.Milestones.{any_revision}

-- No version stands on the revision.
pub any_revision-All :
    (revision : Text) (versions : List Version)
    → any_revision revision versions ≡ false
    → All (λ (v : Version). v.revision ≢ revision) versions
any_revision-All revision [] h = tt
any_revision-All revision (v ∷ versions) h = (
  ground (arith, list_beq_iff v.revision revision),
  any_revision-All revision versions (ground arith),
)

abbrev pub NotOn : Day → Zone → Option ℕ → Type 0
NotOn day zone none = Unit
NotOn day zone (some time) = local_day time zone ≢ day

-- The state that a version marks is not known to be of the day.
abbrev pub IsElsewhere : Zone → Day → List (Text × ℕ) → Version → Type 0
IsElsewhere zone day times v = NotOn day zone (lookup v.revision times)

mark_is_about-NotOn :
    (day : Day) (times : List (Text × ℕ)) (zone : Zone) (v : Version)
    → mark_is_about day times zone v ≡ false
    → IsElsewhere zone day times v
unfolding mark_is_about
mark_is_about-NotOn day times zone v h = by_time (lookup v.revision times) h
  where
    by_time :
        (o : Option ℕ)
        → (elim o as (λ x. Bool) [ none ↦ false | some time ↦ eqb (local_day time zone) day ])
          ≡ false
        → NotOn day zone o
    by_time none h = tt
    by_time (some time) h = ground (arith, eqb_iff (local_day time zone) day)

pub day_is_marked-All :
    (day : Day) (marks : List Version) (times : List (Text × ℕ)) (zone : Zone)
    → day_is_marked day marks times zone ≡ false
    → All (IsElsewhere zone day times) marks
unfolding day_is_marked
day_is_marked-All day [] times zone h = tt
day_is_marked-All day (v ∷ marks) times zone h =
    elim (Bool-cases (mark_is_about day times zone v)) [
      | inl e ↦
          let out : day_is_marked day (v ∷ marks) times zone ≡ true = rw (e, day_is_marked) refl in
          absurd (cc)
      | inr e ↦
          let rest : day_is_marked day (v ∷ marks) times zone ≡ day_is_marked day marks times zone =
            rw (e, day_is_marked) refl in
          (
            mark_is_about-NotOn day times zone v e,
            day_is_marked-All day marks times zone (sym rest ∙ h),
          )
    ]

-- Every state that was read has an id.
abbrev pub HasIds : Option (List Change) → Type 0
HasIds none = Unit
HasIds (some changes) = All (λ (c : Change). is_nil c.revision ≡ false) changes

pub All-get_elem? :
    (P : Change → Type 0) (changes : List Change) (at : ℕ) (c : Change)
    → All P changes
    → get_elem? changes at ≡ some c
    → P c
All-get_elem? P [] at c h e = absurd (cc)
All-get_elem? P (d ∷ changes) zero c h e = let same : d ≡ c = cc in subst P same h.0
All-get_elem? P (d ∷ changes) (suc at) c h e = All-get_elem? P changes at c h.1 e
