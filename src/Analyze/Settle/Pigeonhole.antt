-- ===== src/Analyze/Settle/Pigeonhole.antt =====
-- Different numbers below a bound: as many as the bound says are all of them.
use ha_dashboard_history.Base.{
  ℕ, zero, suc, ◌<◌, ◌≤◌, ◌≡◌, ◌≢◌, refl, ap, sym, ◌∙◌, subst, ◌⊎◌, inl, inr, false, List, [], ◌∷◌,
  arith, length, All, Ordered, eqb, eqb_iff, Bool-cases, if◌then◌else◌,
}

abbrev pub Has : ℕ → List ℕ → Type 0
Has i [] = ⊥
Has i (x ∷ xs) = (x ≡ i) ⊎ Has i xs

abbrev pub Differ : ℕ → ℕ → Type 0
Differ x y = x ≢ y

unfoldable drop_all : ℕ → List ℕ → List ℕ
drop_all n [] = []
drop_all n (x ∷ xs) = let rest = drop_all n xs in if eqb x n then rest else x ∷ rest

-- Either the number is there, or dropping it drops nothing.
Has-or : (n : ℕ) (xs : List ℕ) → Has n xs ⊎ (drop_all n xs ≡ xs)
unfolding drop_all
Has-or n [] = inr refl
Has-or n (x ∷ xs) = elim (Bool-cases (eqb x n)) [
  | inl e ↦ inl (inl ((eqb_iff x n).0 e))
  | inr e ↦ elim (Has-or n xs) [
    | inl h ↦ inl (inr h)
    | inr same ↦ inr (rw (e, drop_all) (ap (λ l. x ∷ l) same))
  ]
]

drop_all-apart : (n : ℕ) (xs : List ℕ) → All (Differ n) xs → drop_all n xs ≡ xs
unfolding drop_all
drop_all-apart n [] h = refl
drop_all-apart n (x ∷ xs) h =
    let e : eqb x n ≡ false = ground (arith, h.0) in
    rw (e, drop_all) (ap (λ l. x ∷ l) (drop_all-apart n xs h.1))

length-drop_all :
    (n : ℕ) (xs : List ℕ) → Ordered Differ xs → length xs ≤ suc (length (drop_all n xs))
unfolding drop_all
length-drop_all n [] h = omega arith
length-drop_all n (x ∷ xs) h = elim (Bool-cases (eqb x n)) [
  | inl e ↦
      let same : x ≡ n = (eqb_iff x n).0 e in
      let apart : drop_all n xs ≡ xs =
        drop_all-apart n xs (subst (λ m. All (Differ m) xs) same h.0) in
      let now : drop_all n (x ∷ xs) ≡ drop_all n xs = rw (e, drop_all) refl in
      let len : length (drop_all n (x ∷ xs)) ≡ length xs = ap (λ l. length l) (now ∙ apart) in
      omega (arith, len)
  | inr e ↦
      let now : drop_all n (x ∷ xs) ≡ x ∷ drop_all n xs = rw (e, drop_all) refl in
      let len : length (drop_all n (x ∷ xs)) ≡ suc (length (drop_all n xs)) =
        ap (λ l. length l) now ∙ omega arith in
      omega (arith, len, length-drop_all n xs h.1)
]

All-drop_all : (P : ℕ → Type 0) (n : ℕ) (xs : List ℕ) → All P xs → All P (drop_all n xs)
unfolding drop_all
All-drop_all P n [] h = tt
All-drop_all P n (x ∷ xs) h = elim (Bool-cases (eqb x n)) [
  | inl e ↦ rw (e, drop_all) (All-drop_all P n xs h.1)
  | inr e ↦ rw (e, drop_all) (h.0, All-drop_all P n xs h.1)
]

Ordered-drop_all : (n : ℕ) (xs : List ℕ) → Ordered Differ xs → Ordered Differ (drop_all n xs)
unfolding drop_all
Ordered-drop_all n [] h = tt
Ordered-drop_all n (x ∷ xs) h = elim (Bool-cases (eqb x n)) [
  | inl e ↦ rw (e, drop_all) (Ordered-drop_all n xs h.1)
  | inr e ↦ rw (e, drop_all) (All-drop_all (Differ x) n xs h.0, Ordered-drop_all n xs h.1)
]

below-drop_all : (n : ℕ) (xs : List ℕ) → All (λ x. x < suc n) xs → All (λ x. x < n) (drop_all n xs)
unfolding drop_all
below-drop_all n [] h = tt
below-drop_all n (x ∷ xs) h = elim (Bool-cases (eqb x n)) [
  | inl e ↦ rw (e, drop_all) (below-drop_all n xs h.1)
  | inr e ↦
      let less : x < n = ground (arith, h.0) in rw (e, drop_all) (less, below-drop_all n xs h.1)
]

Has-drop_all : (i n : ℕ) (xs : List ℕ) → Has i (drop_all n xs) → Has i xs
unfolding drop_all
Has-drop_all i n [] h = h
Has-drop_all i n (x ∷ xs) h = elim (Bool-cases (eqb x n)) [
  | inl e ↦
      let now : drop_all n (x ∷ xs) ≡ drop_all n xs = rw (e, drop_all) refl in
      inr (Has-drop_all i n xs (subst (Has i) now h))
  | inr e ↦
      let now : drop_all n (x ∷ xs) ≡ x ∷ drop_all n xs = rw (e, drop_all) refl in
      elim (subst (Has i) now h) [
        | inl same ↦ inl same
        | inr there ↦ inr (Has-drop_all i n xs there)
      ]
]

length-below : (n : ℕ) (xs : List ℕ) → Ordered Differ xs → All (λ x. x < n) xs → length xs ≤ n
length-below zero [] o h = omega arith
length-below zero (x ∷ xs) o h = let none_less = h.0 in absurd (omega arith)
length-below (suc n) xs o h =
    let shorter =
      length-below n (drop_all n xs) (Ordered-drop_all n xs o) (below-drop_all n xs h) in
    omega (arith, length-drop_all n xs o, shorter)

pub nothing_missing :
    (n i : ℕ) (xs : List ℕ)
    → Ordered Differ xs
    → All (λ x. x < n) xs
    → n ≤ length xs
    → i < n
    → Has i xs
nothing_missing zero i xs o h enough less = absurd (omega arith)
nothing_missing (suc n) i xs o h enough less =
    let o' = Ordered-drop_all n xs o in
    let h' = below-drop_all n xs h in
    elim (Has-or n xs) [
      | inl there ↦ elim (Bool-cases (eqb i n)) [
        | inl e ↦ subst (λ m. Has m xs) (sym ((eqb_iff i n).0 e)) there
        | inr e ↦ Has-drop_all i n xs (
            nothing_missing n i (drop_all n xs) o' h' (omega (arith, length-drop_all n xs o))
              (ground arith))
      ]
      | inr same ↦
          let short = length-below n (drop_all n xs) o' h' in
          let len : length (drop_all n xs) ≡ length xs = ap (λ l. length l) same in
          absurd (omega (arith, short, len))
    ]
