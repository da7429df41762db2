-- ===== src/Store/Tags/Below.antt =====
-- Which names stand in the way of each other: a ref is a file, and its parents are directories.
use mathlib.Core.List.{append_assoc}
use ha_dashboard_history.Base.{
  ℕ, ◌≡◌, ◌≢◌, refl, ap, sym, subst, ◌∙◌, ◌⊎◌, inl, inr, Bool, true, false, List, [], ◌∷◌, ◌++◌,
  map, none, some, Text, codes, after_prefix, contains, eqb, eqb_iff, list_eq, nat_eq, list_beq_iff,
  All, arith, Bool-cases, if◌then◌else◌, after_prefix-append, after_prefix_sound,
}
use ha_dashboard_history.Store.Tags.{parents, first_in}

-- A path inside a directory.
abbrev pub IsBelow : Text → Text → Type 0
IsBelow name directory = (rest : Text) × (name ≡ directory ++ (b'/' ∷ rest))

-- The file system cannot hold both names.
abbrev pub Clashes : Text → Text → Type 0
Clashes name one = (name ≡ one) ⊎ (IsBelow name one ⊎ IsBelow one name)

abbrev pub IsFree : Text → List Text → Type 0
IsFree name existing = All (λ one. ¬ Clashes name one) existing

pub some≢none {ℓ} : {A : Type ℓ} {a : A} → ¬ (some a ≡ none)
some≢none h = absurd (cc)

pub cons≢nil {ℓ} : {A : Type ℓ} {a : A} {l : List A} → ¬ (a ∷ l ≡ [])
cons≢nil h = absurd (cc)

pub contains-All : (a : Text) (xs : List Text) → contains a xs ≡ false → All (λ x. a ≢ x) xs
unfolding contains
contains-All a [] h = tt
contains-All a (x ∷ xs) h = (ground (arith, list_beq_iff a x), contains-All a xs (ground arith))

pub All-contains : (a : Text) (xs : List Text) → All (λ x. a ≢ x) xs → contains a xs ≡ false
unfolding contains
All-contains a [] h = refl
All-contains a (x ∷ xs) h = ground (arith, list_beq_iff a x, All-contains a xs h.1)

pub first_in-All :
    (existing ps : List Text)
    → first_in existing ps ≡ none
    → All (λ p. contains p existing ≡ false) ps
unfolding first_in
first_in-All existing [] h = tt
first_in-All existing (p ∷ ps) h = elim (Bool-cases (contains p existing)) [
  | inl e ↦
      let found : first_in existing (p ∷ ps) ≡ some p = rw (e, first_in) refl in
      absurd (some≢none (sym found ∙ h))
  | inr e ↦
      let later : first_in existing (p ∷ ps) ≡ first_in existing ps = rw (e, first_in) refl in
      (e, first_in-All existing ps (sym later ∙ h))
]

pub All-first_in :
    (existing ps : List Text)
    → All (λ p. contains p existing ≡ false) ps
    → first_in existing ps ≡ none
unfolding first_in
All-first_in existing [] h = refl
All-first_in existing (p ∷ ps) h = rw h.0 (All-first_in existing ps h.1)

module _ (P : Text → Type 0) where
  All-map_cons : (c : ℕ) (ps : List Text) → All (λ p. P (c ∷ p)) ps → All P (map (λ p. c ∷ p) ps)
  All-map_cons c [] h = tt
  All-map_cons c (p ∷ ps) h = (h.0, All-map_cons c ps h.1)

  map_cons-All : (c : ℕ) (ps : List Text) → All P (map (λ p. c ∷ p) ps) → All (λ p. P (c ∷ p)) ps
  map_cons-All c [] h = tt
  map_cons-All c (p ∷ ps) h = (h.0, map_cons-All c ps h.1)

-- The parents of a name are the directories that it is below.
pub parents-All :
    (P : Text → Type 0) (s : Text) → ((p : Text) → IsBelow s p → P p) → All P (parents s)
unfolding parents
parents-All P [] h = tt
parents-All P (c ∷ s) h =
    let deeper : All P (map (λ p. c ∷ p) (parents s)) =
      All-map_cons P c (parents s)
        (parents-All (λ p. P (c ∷ p)) s (λ p b. h (c ∷ p) (b.0, ap (λ t. c ∷ t) b.1))) in
    elim (Bool-cases (eqb c b'/')) [
      | inl e ↦ rw (e, parents) (h [] (s, ap (λ d. d ∷ s) ((eqb_iff c b'/').0 e)), deeper)
      | inr e ↦ rw (e, parents) deeper
    ]

parents-deeper :
    (P : Text → Type 0) (c : ℕ) (s : Text)
    → All P (parents (c ∷ s))
    → All (λ p. P (c ∷ p)) (parents s)
unfolding parents
parents-deeper P c s h = map_cons-All P c (parents s) (by_test (eqb c b'/') h)
  where
    by_test :
        (b : Bool)
        → All P (if b then [] ∷ map (λ p. c ∷ p) (parents s) else map (λ p. c ∷ p) (parents s))
        → All P (map (λ p. c ∷ p) (parents s))
    by_test true h = h.1
    by_test false h = h

pub All-parents : (P : Text → Type 0) (s p : Text) → All P (parents s) → IsBelow s p → P p
unfolding parents
All-parents P s [] h (rest, e) =
    let h' : All P (parents (b'/' ∷ rest)) = subst (λ t. All P (parents t)) e h in h'.0
All-parents P s (c ∷ p) h (rest, e) =
    let h' : All P (parents (c ∷ (p ++ (b'/' ∷ rest)))) = subst (λ t. All P (parents t)) e h in
    All-parents (λ q. P (c ∷ q)) (p ++ (b'/' ∷ rest)) p (parents-deeper P c (p ++ (b'/' ∷ rest)) h')
      (rest, refl)

pub IsBelow-of_prefix :
    (name one rest : Text) → after_prefix (name ++ codes "/") one ≡ some rest → IsBelow one name
IsBelow-of_prefix name one rest h =
    (rest, after_prefix_sound (name ++ codes "/") one rest h ∙ append_assoc name (codes "/") rest)

pub prefix_of_below :
    (name one rest : Text)
    → one ≡ name ++ (b'/' ∷ rest)
    → after_prefix (name ++ codes "/") one ≡ some rest
prefix_of_below name one rest e = rw e (
    ap (after_prefix (name ++ codes "/")) (sym (append_assoc name (codes "/") rest))
    ∙ after_prefix-append (name ++ codes "/") rest)
