-- ===== src/Versions/Number/Latest.antt =====
-- The order of version numbers, and what `latest` returns.
use ha_dashboard_history.Base.{
  ℕ, ◌≡◌, refl, List, [], ◌∷◌, Option, none, some, Text, true, false, arith, ◌⊎◌, inl, inr, Elem,
  zero, suc, get_elem?, All, subst,
}
use ha_dashboard_history.Versions.Number.{
  Parts, Level, patch, minor, major, parts_lt, max_parts, latest_from, latest, parse, bump,
}

pub parts_lt_asym : (p q : Parts) → parts_lt p q ≡ true → parts_lt q p ≡ false
unfolding parts_lt
parts_lt_asym p q h = ground arith

pub parts_lt_irrefl : (p : Parts) → parts_lt p p ≡ false
unfolding parts_lt
parts_lt_irrefl p = ground arith

pub not-parts_lt_trans :
    (p q r : Parts) → parts_lt q p ≡ false → parts_lt r q ≡ false → parts_lt r p ≡ false
unfolding parts_lt
not-parts_lt_trans p q r h k = ground arith

pub parts_lt_of_not-lt :
    (p q r : Parts) → parts_lt q p ≡ false → parts_lt q r ≡ true → parts_lt p r ≡ true
unfolding parts_lt
parts_lt_of_not-lt p q r h k = ground arith

-- `bump` makes a higher number, at every level.
pub parts_lt-bump : (p : Parts) (level : Level) → parts_lt p (bump p level) ≡ true
unfolding parts_lt bump
parts_lt-bump p patch = ground arith
parts_lt-bump p minor = ground arith
parts_lt-bump p major = ground arith

-- A number that is no less than one seen: what `best` has come to.
abbrev pub AtLeast : Option Parts → Parts → Type 0
AtLeast none p = ⊥
AtLeast (some q) p = parts_lt q p ≡ false

max_parts-AtLeast_new : (best : Option Parts) (p : Parts) → AtLeast (max_parts best (some p)) p
unfolding max_parts
max_parts-AtLeast_new none p = parts_lt_irrefl p
max_parts-AtLeast_new (some q) p = ground (arith, parts_lt_irrefl p)

max_parts-AtLeast_old :
    (best o : Option Parts) (p : Parts) → AtLeast best p → AtLeast (max_parts best o) p
unfolding max_parts
max_parts-AtLeast_old none o p h = absurd h
max_parts-AtLeast_old (some q) none p h = h
max_parts-AtLeast_old (some q) (some r) p h =
    ground (arith, parts_lt_asym q r, not-parts_lt_trans r q p)

max_parts-cases :
    (best o : Option Parts) {q : Parts} → max_parts best o ≡ some q → (best ≡ some q) ⊎ (o ≡ some q)
unfolding max_parts
max_parts-cases best none h = inl h
max_parts-cases none (some p) h = inr h
max_parts-cases (some r) (some p) h = ground arith

latest_from-AtLeast_old :
    (key : Text) (names : List Text) (best : Option Parts) (p : Parts)
    → AtLeast best p
    → AtLeast (latest_from key best names) p
unfolding latest_from
latest_from-AtLeast_old key [] best p h = h
latest_from-AtLeast_old key (name ∷ names) best p h =
    latest_from-AtLeast_old key names _ p (max_parts-AtLeast_old best (parse key name) p h)

latest_from-AtLeast :
    (key : Text) (names : List Text) (best : Option Parts) (i : ℕ) (name : Text) (p : Parts)
    → get_elem? names i ≡ some name
    → parse key name ≡ some p
    → AtLeast (latest_from key best names) p
unfolding latest_from
latest_from-AtLeast key [] best i name p e h = absurd (ground arith)
latest_from-AtLeast key (n ∷ names) best zero name p e h =
    let same : n ≡ name = cc in
    latest_from-AtLeast_old key names _ p (rw (same, h) (max_parts-AtLeast_new best p))
latest_from-AtLeast key (n ∷ names) best (suc i) name p e h =
    latest_from-AtLeast key names _ i name p e h

latest_from-found :
    (key : Text) (names : List Text) (best : Option Parts) (q : Parts)
    → latest_from key best names ≡ some q
    → (best ≡ some q) ⊎ ((name : Text) × Elem name names × (parse key name ≡ some q))
unfolding latest_from
latest_from-found key [] best q e = inl e
latest_from-found key (n ∷ names) best q e = elim (latest_from-found key names _ q e) [
  | inl old ↦ came_from (max_parts-cases best (parse key n) old)
  | inr (name, (i, at), h) ↦ inr (name, (suc i, at), h)
]
  where
    came_from :
        (best ≡ some q) ⊎ (parse key n ≡ some q)
        → (best ≡ some q) ⊎ ((name : Text) × Elem name (n ∷ names) × (parse key name ≡ some q))
    came_from (inl h) = inl h
    came_from (inr h) = inr (n, (zero, refl), h)

-- A number that is not above another, where there is one.
abbrev pub NotAbove : Parts → Option Parts → Type 0
NotAbove q none = Unit
NotAbove q (some p) = parts_lt q p ≡ false

-- What `latest` promises: the number of one of the names, above which no name has one; and none where
-- no name has a number.
abbrev pub IsLatest : Text → List Text → Option Parts → Type 0
IsLatest key names none = All (λ name. parse key name ≡ none) names
IsLatest key names (some q) =
    ((name : Text) × Elem name names × (parse key name ≡ some q))
    × All (λ name. NotAbove q (parse key name)) names

All-Elem :
    (P : Text → Type 0) (names : List Text)
    → ((name : Text) → Elem name names → P name)
    → All P names
All-Elem P [] h = tt
All-Elem P (n ∷ names) h = (h n (zero, refl), All-Elem P names (λ name m. h name (suc m.0, m.1)))

-- `latest` answers the highest number among the names of the dashboard, and none exactly where none
-- of them is a version.
pub latest-IsLatest : (key : Text) (names : List Text) → IsLatest key names (latest key names)
unfolding latest
latest-IsLatest key names = by_answer (latest_from key none names) refl
  where
    not_above :
        (q : Parts)
        → latest_from key none names ≡ some q
        → (name : Text) → Elem name names
        → (o : Option Parts) → parse key name ≡ o
        → NotAbove q o
    not_above q e name m none h = tt
    not_above q e name m (some p) h =
        subst (λ best. AtLeast best p) e (latest_from-AtLeast key names none m.0 name p m.1 h)

    no_number :
        latest_from key none names ≡ none
        → (name : Text) → Elem name names
        → (o : Option Parts) → parse key name ≡ o
        → parse key name ≡ none
    no_number e name m none h = h
    no_number e name m (some p) h =
        absurd
          (subst (λ best. AtLeast best p) e (latest_from-AtLeast key names none m.0 name p m.1 h))

    by_answer : (o : Option Parts) → latest_from key none names ≡ o → IsLatest key names o
    by_answer none e = All-Elem _ names (λ name m. no_number e name m (parse key name) refl)
    by_answer (some q) e = (
      elim (latest_from-found key names none q e) [ inl h ↦ absurd (cc) | inr found ↦ found ],
      All-Elem _ names (λ name m. not_above q e name m (parse key name) refl),
    )

pub AtLeast-latest :
    (key : Text) (names : List Text) (name : Text) (p : Parts)
    → Elem name names
    → parse key name ≡ some p
    → AtLeast (latest key names) p
unfolding latest
AtLeast-latest key names name p m h = latest_from-AtLeast key names none m.0 name p m.1 h
