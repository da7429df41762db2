-- ===== src/Versions/Number/Owner.antt =====
-- A tag belongs to one dashboard only.
use ha_dashboard_history.Base.{
  ℕ, zero, suc, ◌+◌, ◌-◌, ◌*◌, ◌/◌, ◌%◌, ◌≡◌, refl, sym, ◌∙◌, inl, inr, true, false, ◌&&◌, [], ◌∷◌,
  ◌++◌, Option, none, some, Text, codes, arith, contains, nat_eq, eqb, leb, Bool-cases,
  after_prefix, after_prefix_sound,
}
use mathlib.Core.List.{append_assoc}
use ha_dashboard_history.Versions.Digits.{
  digit, take_digits, take_number, digits, show, show_before,
}
use ha_dashboard_history.Versions.Number.{
  Parts, version_name, parse, match_numbers, take_char, finish, at_end, ◌>>=◌,
}

abbrev pub NoSlash : Text → Type 0
NoSlash s = contains b'/' s ≡ false

NoSlash-digits : (fuel n : ℕ) (s : Text) → NoSlash s → NoSlash (digits fuel n s)
unfolding digits contains
NoSlash-digits zero n s h = h
NoSlash-digits (suc fuel) n s h = ground (arith, NoSlash-digits fuel (n / 10) ((b'0' + n % 10) ∷ s))

NoSlash-append : (s t : Text) → NoSlash s → NoSlash t → NoSlash (s ++ t)
unfolding contains
NoSlash-append [] t h k = k
NoSlash-append (c ∷ s) t h k = ground (arith, NoSlash-append s t)

NoSlash-show : (n : ℕ) → NoSlash (show n)
unfolding show show_before contains
NoSlash-show n = NoSlash-digits (suc n) n [] refl

-- A text is free of slashes if what is left of it behind a match is.
take_char-NoSlash :
    (k : ℕ) (s t : Text) → eqb b'/' k ≡ false → take_char k s ≡ some t → NoSlash t → NoSlash s
unfolding take_char contains
take_char-NoSlash k [] t n h free = refl
take_char-NoSlash k (c ∷ s) t n h free = ground arith

slash : digit b'/' ≡ none
unfolding digit
slash = refl

take_digits-NoSlash : (n : ℕ) (s : Text) → NoSlash (take_digits n s).1 → NoSlash s
unfolding take_digits contains
take_digits-NoSlash n [] free = refl
take_digits-NoSlash n (c ∷ s) free = by_digit (λ m. take_digits-NoSlash m s) (digit c) refl free
  where
    by_digit :
        ((m : ℕ) → NoSlash (take_digits m s).1 → NoSlash s)
        → (o : Option ℕ) → digit c ≡ o
        → NoSlash
            (elim o as (λ m. ℕ × Text) [
              | none ↦ (n, c ∷ s)
              | some d ↦ take_digits (n * 10 + d) s
            ]).1
        → NoSlash (c ∷ s)
    by_digit rest none e free = free
    by_digit rest (some d) e free = elim (Bool-cases (eqb b'/' c)) [
      | inl same ↦ let c_eq : b'/' ≡ c = ground arith in absurd (cc (e, c_eq, slash))
      | inr other ↦ rw other (rest (n * 10 + d) free)
    ]

take_number-NoSlash :
    (s : Text) (n : ℕ) (t : Text) → take_number s ≡ some (n, t) → NoSlash t → NoSlash s
unfolding take_number
take_number-NoSlash [] n t h free = unfold contains in refl
take_number-NoSlash (c ∷ s) n t h free = elim (Bool-cases (eqb c b'0')) [
  | inl is_zero ↦ unfold contains in ground arith
  | inr other ↦ elim (Bool-cases (leb b'1' c && leb c b'9')) [
    | inl first ↦
        let read : take_digits (c - b'0') s ≡ (n, t) = ground arith in
        let rest : NoSlash s = take_digits-NoSlash (c - b'0') s (rw read free) in
        unfold contains in ground arith
    | inr refused ↦ absurd (ground arith)
  ]
]

>>=-eq-some :
    {A B : Type 0} (m : Option A) (f : A → Option B) {b : B}
    → (m >>= f) ≡ some b
    → (a : A) × (m ≡ some a) × (f a ≡ some b)
>>=-eq-some none f h = absurd (cc)
>>=-eq-some (some a) f h = (a, refl, h)

at_end-NoSlash : (s : Text) → at_end s ≡ true → NoSlash s
unfolding at_end contains
at_end-NoSlash [] h = refl
at_end-NoSlash (c ∷ []) h = ground arith
at_end-NoSlash (c ∷ d ∷ s) h = absurd (cc)

match_numbers-NoSlash : (s : Text) (p : Parts) → match_numbers s ≡ some p → NoSlash s
unfolding match_numbers finish
match_numbers-NoSlash s p h =
    let (s₁, e₁, h₁) = >>=-eq-some (take_char b'v' s) _ h in
    let (r₁, e₂, h₂) = >>=-eq-some (take_number s₁) _ h₁ in
    let (s₂, e₃, h₃) = >>=-eq-some (take_char b'.' r₁.1) _ h₂ in
    let (r₂, e₄, h₄) = >>=-eq-some (take_number s₂) _ h₃ in
    let (s₃, e₅, h₅) = >>=-eq-some (take_char b'.' r₂.1) _ h₄ in
    let (r₃, e₆, h₆) = >>=-eq-some (take_number s₃) _ h₅ in
    take_char-NoSlash b'v' s s₁ refl e₁ (
      take_number-NoSlash s₁ r₁.0 r₁.1 e₂ (
        take_char-NoSlash b'.' r₁.1 s₂ refl e₃ (
          take_number-NoSlash s₂ r₂.0 r₂.1 e₄ (
            take_char-NoSlash b'.' r₂.1 s₃ refl e₅
              (take_number-NoSlash s₃ r₃.0 r₃.1 e₆ (at_end-NoSlash r₃.1 (ground arith)))))))

slash_in : (p t : Text) → contains b'/' (p ++ (b'/' ∷ t)) ≡ true
unfolding contains
slash_in [] t = refl
slash_in (c ∷ p) t = ground (arith, slash_in p t)

-- The text before the last slash.
pub before_slash :
    (p q t r : Text) → NoSlash t → NoSlash r → p ++ (b'/' ∷ t) ≡ q ++ (b'/' ∷ r) → p ≡ q
before_slash [] [] t r h k e = refl
before_slash [] (c ∷ q) t r h k e =
    let same : t ≡ q ++ (b'/' ∷ r) = cc in absurd (cc (h, same, slash_in q r))
before_slash (c ∷ p) [] t r h k e =
    let same : p ++ (b'/' ∷ t) ≡ r = cc in absurd (cc (k, same, slash_in p t))
before_slash (c ∷ p) (d ∷ q) t r h k e =
    let heads : c ≡ d = cc in
    let tails : p ++ (b'/' ∷ t) ≡ q ++ (b'/' ∷ r) = cc in cc (heads, before_slash p q t r h k tails)

pub tag_tail : Parts → Text
tag_tail (a, b, c) = b'v' ∷ (show a ++ (b'.' ∷ (show b ++ (b'.' ∷ show c))))

cons-NoSlash : (c : ℕ) (s : Text) → eqb b'/' c ≡ false → NoSlash s → NoSlash (c ∷ s)
unfolding contains
cons-NoSlash c s e h = rw e h

pub NoSlash-tag_tail : (p : Parts) → NoSlash (tag_tail p)
unfolding tag_tail
NoSlash-tag_tail (a, b, c) = cons-NoSlash b'v' _ refl (
    NoSlash-append (show a) _ (NoSlash-show a) (
      cons-NoSlash b'.' _ refl
        (NoSlash-append (show b) _ (NoSlash-show b) (cons-NoSlash b'.' _ refl (NoSlash-show c)))))

pub version_name-tag_tail :
    (key : Text) (p : Parts) → version_name key p ≡ (key ++ codes "/") ++ tag_tail p
unfolding version_name tag_tail
version_name-tag_tail key (a, b, c) = sym (append_assoc key (codes "/") (tag_tail (a, b, c)))

-- A dashboard that reads a name of `version_name` as a version of its own is the one the name was built
-- for, whatever characters the two keys hold.
pub parse-version_name_own :
    (key other : Text) (p q : Parts) → parse other (version_name key p) ≡ some q → other ≡ key
unfolding parse version_name tag_tail
parse-version_name_own key other p q h =
    let (rest, e, h') =
      >>=-eq-some (after_prefix (other ++ codes "/") (version_name key p)) match_numbers h in
    let name : version_name key p ≡ (other ++ codes "/") ++ rest = after_prefix_sound _ _ rest e in
    sym (
      before_slash key other (tag_tail p) rest (NoSlash-tag_tail p)
        (match_numbers-NoSlash rest q h') (name ∙ append_assoc other (codes "/") rest))
