-- ===== src/Store/Index/Places.antt =====
-- The places of the revisions of a walk, and which of them lie behind a cursor.
use ha_dashboard_history.Base.{
  ℕ, suc, ◌+◌, ◌<◌, ◌≤◌, ◌≡◌, refl, ap, sym, ◌∙◌, inl, inr, Bool, true, false, List, [], ◌∷◌, ◌++◌,
  map, none, some, Text, contains, lookup, length, ltb, list_eq, nat_eq, All, Option-cases,
  if◌then◌else◌, arith,
}
use ha_dashboard_history.Git.{Entry}
use ha_dashboard_history.Store.Dict.{get_or}
use ha_dashboard_history.Store.Dict.Laws.{
  either, if_same, IsDistinct, contains-cons_same, contains-cons_other, lookup-cons_same,
  lookup-cons_other,
}
use ha_dashboard_history.Store.Touched.{Touched}
use ha_dashboard_history.Store.Index.{read_entry, older_than}
use ha_dashboard_history.Store.Index.Walked.{revisions_of, place_in, one_if}

-- The ids of the commits of a walk.
abbrev pub shas : List Entry → List Text
shas [] = []
shas (e ∷ entries) = e.commit.sha ∷ shas entries

some_injective {ℓ} : {A : Type ℓ} {a b : A} → some a ≡ some b → a ≡ b
some_injective h = cc

pub older_than-append :
    (at : ℕ) (order : List (Text × ℕ)) (xs ys : List Text)
    → older_than at order (xs ++ ys) ≡ older_than at order xs ++ older_than at order ys
unfolding older_than
older_than-append at order [] ys = refl
older_than-append at order (x ∷ xs) ys =
    by_test (ltb at (get_or 0 x order)) (older_than at order xs) (older_than at order ys)
      (older_than at order (xs ++ ys)) (older_than-append at order xs ys)
  where
    by_test :
        (b : Bool) (m n l : List Text)
        → l ≡ m ++ n
        → (if b then x ∷ l else l) ≡ (if b then x ∷ m else m) ++ n
    by_test true m n l e = ap (λ t. x ∷ t) e
    by_test false m n l e = e

pub older_than-none :
    (at : ℕ) (order : List (Text × ℕ)) (xs : List Text)
    → All (λ r. ltb at (get_or 0 r order) ≡ false) xs
    → older_than at order xs ≡ []
unfolding older_than
older_than-none at order [] h = refl
older_than-none at order (x ∷ xs) h = rw h.0 (older_than-none at order xs h.1)

pub older_than_whole :
    (at : ℕ) (order : List (Text × ℕ)) (xs : List Text)
    → All (λ r. ltb at (get_or 0 r order) ≡ true) xs
    → older_than at order xs ≡ xs
unfolding older_than
older_than_whole at order [] h = refl
older_than_whole at order (x ∷ xs) h = rw h.0 (ap (λ t. x ∷ t) (older_than_whole at order xs h.1))

-- A place in a walk lies within it.
pub place_in_bounds :
    (r : Text) (p q : ℕ) (entries : List (Text × Touched))
    → place_in r p entries ≡ some q
    → (p ≤ q) × (q < p + length entries)
unfolding lookup
place_in_bounds r p q [] h = absurd (cc)
place_in_bounds r p q ((revision, found) ∷ entries) h =
    elim (Option-cases (place_in r (suc p) entries)) [
      | inr (later, e) ↦
          let same : later ≡ q =
            some_injective (sym (ap (λ o. either o (lookup r ((revision, p) ∷ []))) e) ∙ h) in
          let b = place_in_bounds r (suc p) later entries e in omega (arith, same, b)
      | inl e ↦
          let here : lookup r ((revision, p) ∷ []) ≡ some q =
            sym (ap (λ o. either o (lookup r ((revision, p) ∷ []))) e) ∙ h in
          if_same r revision _
            (λ s.
              let same : p ≡ q = some_injective (sym (lookup-cons_same r revision p [] s) ∙ here) in
              omega (arith, same))
            (λ d.
              let out : none ≡ some q = sym (lookup-cons_other r revision p [] d) ∙ here in
              absurd (cc))
    ]

-- A revision that is among the ids has a place, one that is not has none.
pub placed :
    (r : Text) (p : ℕ) (entries : List Entry)
    → contains r (shas entries) ≡ true
    → (q : ℕ) × (place_in r p (map read_entry entries) ≡ some q)
unfolding read_entry contains
placed r p [] h = absurd (cc)
placed r p (e ∷ entries) h = elim (Option-cases (place_in r (suc p) (map read_entry entries))) [
  | inr (later, s) ↦ (later, ap (λ o. either o (lookup r ((e.commit.sha, p) ∷ []))) s)
  | inl s ↦
      if_same r e.commit.sha _
        (λ same. (
          p,
          ap (λ o. either o (lookup r ((e.commit.sha, p) ∷ []))) s
              ∙ lookup-cons_same r e.commit.sha p [] same,
        ))
        (λ d.
          let (q, later) =
            placed r (suc p) entries
              (sym (contains-cons_other r e.commit.sha (shas entries) d) ∙ h) in
          absurd (cc (s, later)))
]

pub not_placed :
    (r : Text) (p : ℕ) (entries : List Entry)
    → contains r (shas entries) ≡ false
    → place_in r p (map read_entry entries) ≡ none
unfolding read_entry contains
not_placed r p [] h = refl
not_placed r p (e ∷ entries) h =
    if_same r e.commit.sha _
      (λ s.
        let out : true ≡ false = sym (contains-cons_same r e.commit.sha (shas entries) s) ∙ h in
        absurd (cc))
      (λ d.
        ap (λ o. either o (lookup r ((e.commit.sha, p) ∷ [])))
          (not_placed r (suc p) entries
            (sym (contains-cons_other r e.commit.sha (shas entries) d) ∙ h))
        ∙ lookup-cons_other r e.commit.sha p [] d)

pub All-map :
    (P Q : Text → Type 0) (xs : List Text) → ((x : Text) → P x → Q x) → All P xs → All Q xs
All-map P Q [] f h = tt
All-map P Q (x ∷ xs) f h = (f x h.0, All-map P Q xs f h.1)

contains-cons_more :
    (r x : Text) (xs : List Text) → contains r xs ≡ true → contains r (x ∷ xs) ≡ true
contains-cons_more r x xs h =
    if_same r x _ (λ e. contains-cons_same r x xs e) (λ d. contains-cons_other r x xs d ∙ h)

pub All-contains_self : (xs : List Text) → All (λ r. contains r xs ≡ true) xs
All-contains_self [] = tt
All-contains_self (x ∷ xs) = (
  contains-cons_same x x xs refl,
  All-map (λ r. contains r xs ≡ true) (λ r. contains r (x ∷ xs) ≡ true) xs
      (λ r h. contains-cons_more r x xs h) (All-contains_self xs),
)

pub All-revisions_of :
    (P : Text → Type 0) (k : Text) (entries : List Entry)
    → All P (shas entries)
    → All P (revisions_of k (map read_entry entries))
unfolding read_entry
All-revisions_of P k [] h = tt
All-revisions_of P k (e ∷ entries) h =
    by_test (contains k (read_entry e).1.keys) (All-revisions_of P k entries h.1)
  where
    by_test :
        (b : Bool)
        → All P (revisions_of k (map read_entry entries))
        → All P (one_if b e.commit.sha ++ revisions_of k (map read_entry entries))
    by_test true rest = (h.0, rest)
    by_test false rest = rest

not_later : (r x : Text) (xs : List Text) → contains r (x ∷ xs) ≡ false → contains r xs ≡ false
not_later r x xs h =
    if_same r x _
      (λ s. let out : true ≡ false = sym (contains-cons_same r x xs s) ∙ h in absurd (cc))
      (λ d. sym (contains-cons_other r x xs d) ∙ h)

not_behind :
    (r : Text) (newer older : List Entry) (e : Entry)
    → contains r (shas (newer ++ (e ∷ older))) ≡ false
    → contains r (shas older) ≡ false
not_behind r [] older e h = not_later r e.commit.sha (shas older) h
not_behind r (n ∷ newer) older e h =
    not_behind r newer older e (not_later r n.commit.sha (shas (newer ++ (e ∷ older))) h)

-- Each commit up to the cursor is none of those behind it.
pub apart :
    (newer older : List Entry) (e : Entry)
    → IsDistinct (shas (newer ++ (e ∷ older)))
    → All (λ r. contains r (shas older) ≡ false) (shas (newer ++ (e ∷ [])))
apart [] older e h = (h.0, tt)
apart (n ∷ newer) older e h = (not_behind n.commit.sha newer older e h.0, apart newer older e h.1)

pub apart_last :
    (newer older : List Entry) (e : Entry)
    → IsDistinct (shas (newer ++ (e ∷ older)))
    → contains e.commit.sha (shas older) ≡ false
apart_last [] older e h = h.0
apart_last (n ∷ newer) older e h = apart_last newer older e h.1

pub get_or-some :
    (r : Text) (order : List (Text × ℕ)) (q : ℕ) → lookup r order ≡ some q → get_or 0 r order ≡ q
unfolding get_or
get_or-some r order q h = rw (h, get_or) refl

pub get_or-missing :
    (r : Text) (order : List (Text × ℕ)) → lookup r order ≡ none → get_or 0 r order ≡ 0
unfolding get_or
get_or-missing r order h = rw (h, get_or) refl

pub length-map_read : (entries : List Entry) → length entries ≡ 0 + length (map read_entry entries)
length-map_read [] = refl
length-map_read (e ∷ entries) = omega (arith, length-map_read entries)

pub not_ltb : (a b : ℕ) → b ≤ a → ltb a b ≡ false
not_ltb a b h = ground arith
