-- ===== src/Store/Tags/Free.antt =====
-- Which names `_refuse_colliding_name` lets through: a ref is a file, and its parents are directories.
use ha_dashboard_history.Base.{
  ◌≡◌, ◌≢◌, refl, sym, subst, ◌∙◌, inl, inr, ◌↔◌, Bool, false, List, [], ◌∷◌, ◌++◌, Option, none,
  some, Text, codes, after_prefix, contains, text_lt, sort_by, insert_sorted, list_eq, nat_eq, All,
  Bool-cases, Option-cases,
}
use ha_dashboard_history.Store.Types.{Sentence, version_exists}
use ha_dashboard_history.Store.Tags.{
  parents, first_in, names_below, colliding_name, below_sentence, parent_sentence,
}
use ha_dashboard_history.Store.Tags.Below.{
  IsBelow, Clashes, IsFree, some≢none, cons≢nil, contains-All, All-contains, first_in-All,
  All-first_in, parents-All, All-parents, IsBelow-of_prefix, prefix_of_below,
}

names_below-All :
    (name : Text) (existing : List Text)
    → names_below name existing ≡ []
    → All (λ one. ¬ IsBelow one name) existing
unfolding names_below
names_below-All name [] h = tt
names_below-All name (one ∷ existing) h =
    elim (Option-cases (after_prefix (name ++ codes "/") one)) [
      | inl e ↦
          let later : names_below name (one ∷ existing) ≡ names_below name existing =
            rw (e, names_below) refl in
          (
            λ b. some≢none (sym (prefix_of_below name one b.0 b.1) ∙ e),
            names_below-All name existing (sym later ∙ h),
          )
      | inr (rest, e) ↦
          let found : names_below name (one ∷ existing) ≡ one ∷ names_below name existing =
            rw (e, names_below) refl in
          absurd (cons≢nil (sym found ∙ h))
    ]

All-names_below :
    (name : Text) (existing : List Text)
    → All (λ one. ¬ IsBelow one name) existing
    → names_below name existing ≡ []
unfolding names_below
All-names_below name [] h = refl
All-names_below name (one ∷ existing) h =
    elim (Option-cases (after_prefix (name ++ codes "/") one)) [
      | inl e ↦ rw (e, names_below) (All-names_below name existing h.1)
      | inr (rest, e) ↦ absurd (h.0 (IsBelow-of_prefix name one rest e))
    ]

insert_sorted≢nil :
    (before : Text → Text → Bool) (x : Text) (xs : List Text) → ¬ (insert_sorted before x xs ≡ [])
unfolding insert_sorted
insert_sorted≢nil before x [] h = cons≢nil h
insert_sorted≢nil before x (y ∷ ys) h = elim (Bool-cases (before y x)) [
  | inl e ↦
      let first : insert_sorted before x (y ∷ ys) ≡ y ∷ insert_sorted before x ys =
        rw (e, insert_sorted) refl in
      cons≢nil (sym first ∙ h)
  | inr e ↦
      let first : insert_sorted before x (y ∷ ys) ≡ x ∷ y ∷ ys = rw (e, insert_sorted) refl in
      cons≢nil (sym first ∙ h)
]

sort_by-eq-nil : (before : Text → Text → Bool) (xs : List Text) → sort_by before xs ≡ [] → xs ≡ []
unfolding sort_by
sort_by-eq-nil before [] h = refl
sort_by-eq-nil before (x ∷ xs) h = absurd (insert_sorted≢nil before x (sort_by before xs) h)

apart_of_parents :
    (name : Text) (existing : List Text)
    → ((p : Text) → IsBelow name p → All (λ x. p ≢ x) existing)
    → All (λ one. ¬ IsBelow name one) existing
apart_of_parents name [] h = tt
apart_of_parents name (one ∷ existing) h =
    (λ b. (h one b).0 refl, apart_of_parents name existing (λ p b. (h p b).1))

parents_of_apart :
    (name p : Text) (existing : List Text)
    → IsBelow name p
    → All (λ one. ¬ IsBelow name one) existing
    → All (λ x. p ≢ x) existing
parents_of_apart name p [] b h = tt
parents_of_apart name p (one ∷ existing) b h =
    (λ e. h.0 (subst (IsBelow name) e b), parents_of_apart name p existing b h.1)

IsFree-of_parts :
    (name : Text) (existing : List Text)
    → All (λ one. name ≢ one) existing
    → All (λ one. ¬ IsBelow name one) existing
    → All (λ one. ¬ IsBelow one name) existing
    → IsFree name existing
IsFree-of_parts name [] other above below = tt
IsFree-of_parts name (one ∷ existing) other above below = (
  λ (c : Clashes name one). elim c [
    | inl e ↦ other.0 e
    | inr d ↦ elim d [ inl b ↦ above.0 b | inr b ↦ below.0 b ]
  ],
  IsFree-of_parts name existing other.1 above.1 below.1,
)

module _ (name : Text) where
  other_of_free : (existing : List Text) → IsFree name existing → All (λ one. name ≢ one) existing
  other_of_free [] h = tt
  other_of_free (one ∷ existing) h = (λ e. h.0 (inl e), other_of_free existing h.1)

  above_of_free :
      (existing : List Text) → IsFree name existing → All (λ one. ¬ IsBelow name one) existing
  above_of_free [] h = tt
  above_of_free (one ∷ existing) h = (λ b. h.0 (inr (inl b)), above_of_free existing h.1)

  IsBelow-of_free :
      (existing : List Text) → IsFree name existing → All (λ one. ¬ IsBelow one name) existing
  IsBelow-of_free [] h = tt
  IsBelow-of_free (one ∷ existing) h = (λ b. h.0 (inr (inr b)), IsBelow-of_free existing h.1)

below_sentence-eq-none :
    (name : Text) (below : List Text) → below_sentence name below ≡ none → below ≡ []
below_sentence-eq-none name [] h = refl
below_sentence-eq-none name (b ∷ below) h = absurd (cc)

parent_sentence-eq-none :
    (name : Text) (parent : Option Text) (later : Option Sentence)
    → parent_sentence name parent later ≡ none
    → (parent ≡ none) × (later ≡ none)
parent_sentence-eq-none name none later h = (refl, h)
parent_sentence-eq-none name (some p) later h = absurd (cc)

colliding_name_sound :
    (name : Text) (existing : List Text)
    → colliding_name name existing ≡ none
    → IsFree name existing
unfolding colliding_name
colliding_name_sound name existing h = elim (Bool-cases (contains name existing)) [
  | inl e ↦
      let found : colliding_name name existing ≡ some (version_exists name) =
        rw (e, colliding_name) refl in
      absurd (some≢none (sym found ∙ h))
  | inr e ↦
      let now : colliding_name name existing
          ≡ parent_sentence name (first_in existing (parents name))
              (below_sentence name (sort_by text_lt (names_below name existing))) =
        rw (e, colliding_name) refl in
      let (no_parent, no_below) = parent_sentence-eq-none name _ _ (sym now ∙ h) in
      let free_parents = first_in-All existing (parents name) no_parent in
      IsFree-of_parts name existing (contains-All name existing e)
        (apart_of_parents name existing (λ p b.
          contains-All p existing
            (All-parents (λ q. contains q existing ≡ false) name p free_parents b)))
        (names_below-All name existing
          (sort_by-eq-nil text_lt _ (below_sentence-eq-none name _ no_below)))
]

colliding_name_complete :
    (name : Text) (existing : List Text)
    → IsFree name existing
    → colliding_name name existing ≡ none
unfolding colliding_name sort_by
colliding_name_complete name existing h =
    let other : contains name existing ≡ false =
      All-contains name existing (other_of_free name existing h) in
    let no_parent : first_in existing (parents name) ≡ none = All-first_in existing (parents name) (
      parents-All (λ p. contains p existing ≡ false) name
        (λ p b.
          All-contains p existing
            (parents_of_apart name p existing b (above_of_free name existing h)))) in
    let no_below : names_below name existing ≡ [] =
      All-names_below name existing (IsBelow-of_free name existing h) in
    rw (other, no_parent, no_below) refl

-- `_refuse_colliding_name` lets a name through exactly where no existing one is the same, or a
-- directory that it would have to stand in, or a path inside it.
pub colliding_name-IsFree :
    (name : Text) (existing : List Text)
    → (colliding_name name existing ≡ none) ↔ IsFree name existing
colliding_name-IsFree name existing =
    (colliding_name_sound name existing, colliding_name_complete name existing)
