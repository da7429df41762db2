-- ===== src/Versions/Number/Next.antt =====
-- The names that `candidates` proposes.
use ha_dashboard_history.Base.{
  ◌≡◌, refl, ap, ◌∙◌, List, Option, none, some, Text, true, false, arith, Elem,
}
use ha_dashboard_history.Versions.Number.{
  Parts, Level, parts_lt, latest, parse, bump, base_of, candidates, version_name,
}
use ha_dashboard_history.Versions.Number.RoundTrip.{parse-version_name}
use ha_dashboard_history.Versions.Number.Latest.{
  AtLeast, AtLeast-latest, parts_lt-bump, parts_lt_irrefl, parts_lt_of_not-lt,
}

candidates_lem :
    (key : Text) (names : List Text) (level : Level)
    → (candidates key names).at_level level
      ≡ version_name key (bump (base_of (latest key names)) level)
unfolding candidates
candidates_lem key names level = refl

AtLeast-base_of : (o : Option Parts) (p : Parts) → AtLeast o p → parts_lt (base_of o) p ≡ false
AtLeast-base_of none p h = absurd h
AtLeast-base_of (some q) p h = h

-- The name that `candidates` proposes for a level reads as a version of the dashboard, with a number
-- above that of each name there is that has one.
pub candidates_above :
    (key : Text) (names : List Text) (level : Level) (name : Text) (p : Parts)
    → Elem name names
    → parse key name ≡ some p
    → (q : Parts) × (parse key ((candidates key names).at_level level) ≡ some q)
      × (parts_lt p q ≡ true)
candidates_above key names level name p m h =
    let base = base_of (latest key names) in
    (
      bump base level,
      ap (parse key) (candidates_lem key names level) ∙ parse-version_name key _,
      parts_lt_of_not-lt p base (bump base level)
          (AtLeast-base_of (latest key names) p (AtLeast-latest key names name p m h))
          (parts_lt-bump base level),
    )

-- The name that `candidates` proposes for a level is none of the names there are.
pub candidates_fresh :
    (key : Text) (names : List Text) (level : Level)
    → ¬ Elem ((candidates key names).at_level level) names
candidates_fresh key names level m =
    let q = bump (base_of (latest key names)) level in
    let e : parse key ((candidates key names).at_level level) ≡ some q =
      ap (parse key) (candidates_lem key names level) ∙ parse-version_name key q in
    let (r, e', above) = candidates_above key names level _ q m e in
    ground (arith, parts_lt_irrefl q)
