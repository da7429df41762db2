-- ===== src/Store/Paths.antt =====
-- store.py: `_key_of`, which dashboard a recorded path belongs to.
use ha_dashboard_history.Base.{
  ℕ, suc, ◌≡◌, refl, ap, sym, ◌∙◌, ◌⊎◌, inl, inr, true, false, [], ◌∷◌, ◌++◌, Option, none, some,
  Text, codes, after_prefix, after_prefix-append, after_prefix_sound, list_eq, nat_eq, ◌==◌,
  list_beq_iff, Bool-cases, Option-cases, arith, length, length-append,
}

abbrev with_head : ℕ → Option Text → Option Text
with_head c none = none
with_head c (some s) = some (c ∷ s)

-- `s[:-len(suffix)]` if `s` ends with the suffix.
unfoldable pub before_suffix : Text → Text → Option Text
before_suffix suffix [] = elim ([] == suffix) [ true ↦ some [] | false ↦ none ]
before_suffix suffix (c ∷ s) = elim (c ∷ s == suffix) [
  | true ↦ some []
  | false ↦ with_head c (before_suffix suffix s)
]

abbrev pub yaml : Text
yaml = codes ".yaml"

abbrev pub meta : Text
meta = codes "meta/"

-- What stands between `meta/`, if it does, and `.yaml`.
unfoldable pub key_of : Text → Option Text
unfolding before_suffix
key_of path = elim (after_prefix meta path) [
  | none ↦ before_suffix yaml path
  | some rest ↦ before_suffix yaml rest
]

before_suffix-hit : (suffix s : Text) → s ≡ suffix → before_suffix suffix s ≡ some []
unfolding before_suffix
before_suffix-hit suffix [] h = rw ((list_beq_iff [] suffix).1 h, before_suffix) refl
before_suffix-hit suffix (c ∷ s) h = rw ((list_beq_iff (c ∷ s) suffix).1 h, before_suffix) refl

before_suffix-cons :
    (suffix : Text) (c : ℕ) (s : Text)
    → (c ∷ s == suffix) ≡ false
    → before_suffix suffix (c ∷ s) ≡ with_head c (before_suffix suffix s)
unfolding before_suffix
before_suffix-cons suffix c s h = rw (h, before_suffix) refl

before_suffix-nil : (suffix : Text) → ([] == suffix) ≡ false → before_suffix suffix [] ≡ none
unfolding before_suffix
before_suffix-nil suffix h = rw (h, before_suffix) refl

some_injective : {A : Type 0} {a b : A} → some a ≡ some b → a ≡ b
some_injective h = cc

with_head-eq-some :
    (c : ℕ) (o : Option Text) {stem : Text}
    → with_head c o ≡ some stem
    → (rest : Text) × (o ≡ some rest) × (stem ≡ c ∷ rest)
with_head-eq-some c none h = absurd (cc)
with_head-eq-some c (some rest) h = (rest, refl, sym (some_injective h))

hit_sound :
    (suffix s stem : Text) → s ≡ suffix → before_suffix suffix s ≡ some stem → s ≡ stem ++ suffix
hit_sound suffix s stem same h =
    let e : [] ≡ stem = some_injective (sym (before_suffix-hit suffix s same) ∙ h) in
    same ∙ ap (λ t. t ++ suffix) e

before_suffix_sound :
    (suffix s stem : Text) → before_suffix suffix s ≡ some stem → s ≡ stem ++ suffix
before_suffix_sound suffix [] stem h = elim (Bool-cases ([] == suffix)) [
  | inl e ↦ hit_sound suffix [] stem ((list_beq_iff [] suffix).0 e) h
  | inr e ↦ let out : none ≡ some stem = sym (before_suffix-nil suffix e) ∙ h in absurd (cc)
]
before_suffix_sound suffix (c ∷ s) stem h = elim (Bool-cases (c ∷ s == suffix)) [
  | inl e ↦ hit_sound suffix (c ∷ s) stem ((list_beq_iff (c ∷ s) suffix).0 e) h
  | inr e ↦
      let (rest, found, same) =
        with_head-eq-some c (before_suffix suffix s) (sym (before_suffix-cons suffix c s e) ∙ h) in
      ap (λ t. c ∷ t) (before_suffix_sound suffix s rest found) ∙ ap (λ t. t ++ suffix) (sym same)
]

longer : (c : ℕ) (stem suffix : Text) → (c ∷ (stem ++ suffix) == suffix) ≡ false
longer c stem suffix = elim (Bool-cases (c ∷ (stem ++ suffix) == suffix)) [
  | inl e ↦
      let same : c ∷ (stem ++ suffix) ≡ suffix = (list_beq_iff (c ∷ (stem ++ suffix)) suffix).0 e in
      let count : suc (length (stem ++ suffix)) ≡ length suffix = ap (λ t. length t) same in
      absurd (omega (arith, count, length-append stem suffix))
  | inr e ↦ e
]

before_suffix-append : (suffix stem : Text) → before_suffix suffix (stem ++ suffix) ≡ some stem
before_suffix-append suffix [] = before_suffix-hit suffix suffix refl
before_suffix-append suffix (c ∷ stem) =
    before_suffix-cons suffix c (stem ++ suffix) (longer c stem suffix)
    ∙ ap (with_head c) (before_suffix-append suffix stem)

key_of-meta_rest :
    (path rest : Text) → after_prefix meta path ≡ some rest → key_of path ≡ before_suffix yaml rest
unfolding key_of after_prefix
key_of-meta_rest path rest h = rw h refl

key_of-plain : (path : Text) → after_prefix meta path ≡ none → key_of path ≡ before_suffix yaml path
unfolding key_of after_prefix
key_of-plain path h = rw h refl

not_meta : (key : Text) → after_prefix meta key ≡ none → after_prefix meta (key ++ yaml) ≡ none
unfolding after_prefix
not_meta [] h = refl
not_meta (a ∷ []) h = ground arith
not_meta (a ∷ b ∷ []) h = ground arith
not_meta (a ∷ b ∷ c ∷ []) h = ground arith
not_meta (a ∷ b ∷ c ∷ d ∷ []) h = ground arith
not_meta (a ∷ b ∷ c ∷ d ∷ e ∷ k) h = ground arith

-- `_key_of` undoes both paths of a dashboard: the one of its configuration, unless the key itself
-- begins with `meta/`, and the one of its metadata.
pub key_of-paths :
    (key : Text)
    → after_prefix meta key ≡ none
    → (key_of (key ++ yaml) ≡ some key) × (key_of (meta ++ (key ++ yaml)) ≡ some key)
key_of-paths key h = (
  key_of-plain (key ++ yaml) (not_meta key h) ∙ before_suffix-append yaml key,
  key_of-meta_rest _ (key ++ yaml) (after_prefix-append meta (key ++ yaml))
      ∙ before_suffix-append yaml key,
)

-- A path that `_key_of` gives to a dashboard is one of the two paths of that dashboard.
pub key_of-IsPath :
    (path key : Text)
    → key_of path ≡ some key
    → (path ≡ key ++ yaml) ⊎ (path ≡ meta ++ (key ++ yaml))
key_of-IsPath path key h = elim (Option-cases (after_prefix meta path)) [
  | inl e ↦ inl (before_suffix_sound yaml path key (sym (key_of-plain path e) ∙ h))
  | inr (rest, e) ↦ inr (
      after_prefix_sound meta path rest e
      ∙ ap (λ t. meta ++ t)
          (before_suffix_sound yaml rest key (sym (key_of-meta_rest path rest e) ∙ h)))
]
