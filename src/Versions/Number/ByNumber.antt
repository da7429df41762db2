-- ===== src/Versions/Number/ByNumber.antt =====
-- The order of `by_number`, and how `highest` relates to it.
use ha_dashboard_history.Base.{
  ◌≡◌, refl, ap, sym, ◌∙◌, List, [], ◌∷◌, Option, none, some, Text, true, false, arith, Ordered,
  sort_by-Ordered, sort_by-perm, NotAfter, sort_by, insert_sorted, if◌then◌else◌,
}
use mathlib.Core.List.{Perm}
use ha_dashboard_history.Versions.Number.{
  Parts, parts_lt, parse, number_lt, higher_number, by_number, highest, highest_from, better,
  version_of,
}
use ha_dashboard_history.Versions.Number.Latest.{
  parts_lt_asym, not-parts_lt_trans, parts_lt_of_not-lt,
}

number_lt_asym : (p q : Option Parts) → number_lt p q ≡ true → number_lt q p ≡ false
unfolding number_lt
number_lt_asym none none h = refl
number_lt_asym none (some q) h = refl
number_lt_asym (some p) none h = cc
number_lt_asym (some p) (some q) h = parts_lt_asym p q h

not-number_lt_trans :
    (p q r : Option Parts) → number_lt q p ≡ false → number_lt r q ≡ false → number_lt r p ≡ false
unfolding number_lt
not-number_lt_trans (some p) (some q) (some r) h k = not-parts_lt_trans p q r h k
not-number_lt_trans none none r h k = k
not-number_lt_trans none (some q) none h k = refl
not-number_lt_trans none (some q) (some r) h k = refl
not-number_lt_trans (some p) none none h k = h
not-number_lt_trans (some p) none (some r) h k = cc
not-number_lt_trans (some p) (some q) none h k = cc

abbrev pub Numbered : Type 0 → Type 0
Numbered V = Option (Parts × V)

-- The one with the higher number, the left one of equal ones.
combine : {V : Type 0} → Numbered V → Numbered V → Numbered V
combine none b = b
combine a none = a
combine (some (p, v)) (some (q, w)) = if parts_lt p q then some (q, w) else some (p, v)

abbrev tag : {V : Type 0} → Option Parts → V → Numbered V
tag none v = none
tag (some p) v = some (p, v)

combine-none : {V : Type 0} (a : Numbered V) → combine a none ≡ a
unfolding combine
combine-none none = refl
combine-none (some (p, v)) = refl

combine_assoc :
    {V : Type 0} (a b c : Numbered V) → combine (combine a b) c ≡ combine a (combine b c)
unfolding combine
combine_assoc none b c = refl
combine_assoc (some (p, v)) none c = refl
combine_assoc (some (p, v)) (some (q, w)) none = ground arith
combine_assoc (some (p, v)) (some (q, w)) (some (r, u)) = ground (
  arith,
  not-parts_lt_trans p q r,
  parts_lt_of_not-lt p q r,
  parts_lt_asym p q,
  parts_lt_asym q r,
  not-parts_lt_trans r q p,
  parts_lt_asym p r,
  parts_lt_of_not-lt q p r,
)

module _ {V : Type 0} (name_of : V → Text) (key : Text) where
  -- `by_number` answers the versions given, each as often, and none of them, with a number or without one,
  -- stands before one with a higher number.
  pub by_number-Ordered :
      (versions : List V)
      → Perm (by_number name_of key versions) versions
        × Ordered (NotAfter (higher_number name_of key)) (by_number name_of key versions)
  unfolding by_number
  by_number-Ordered versions = (
    sort_by-perm (higher_number name_of key) versions,
    sort_by-Ordered (higher_number name_of key)
        (λ v w h. number_lt_asym (parse key (name_of w)) (parse key (name_of v)) h)
        (λ u v w h k.
          not-number_lt_trans (parse key (name_of w)) (parse key (name_of v))
            (parse key (name_of u)) k h)
        versions,
  )

  abbrev tag_of : V → Numbered V
  tag_of v = tag (parse key (name_of v)) v

  better-eq-combine :
      (best : Numbered V) (o : Option Parts) (v : V) → better best o v ≡ combine best (tag o v)
  unfolding better combine
  better-eq-combine none none v = refl
  better-eq-combine (some (p, w)) none v = refl
  better-eq-combine none (some q) v = refl
  better-eq-combine (some (p, w)) (some q) v = refl

  highest_from-eq-combine :
      (best : Numbered V) (versions : List V)
      → highest_from name_of key best versions
        ≡ combine best (highest_from name_of key none versions)
  unfolding highest_from combine
  highest_from-eq-combine best [] = sym (combine-none best)
  highest_from-eq-combine best (v ∷ vs) =
      let o = parse key (name_of v) in
      let rest = highest_from name_of key none vs in
      ap (λ b. highest_from name_of key b vs) (better-eq-combine best o v)
      ∙ highest_from-eq-combine (combine best (tag o v)) vs
      ∙ combine_assoc best (tag o v) rest
      ∙ ap (combine best) (
          sym (highest_from-eq-combine (tag o v) vs)
          ∙ ap (λ b. highest_from name_of key b vs) (sym (better-eq-combine none o v)))

  -- The first version of a list, with its number, if it has one.
  abbrev first_numbered : List V → Numbered V
  first_numbered [] = none
  first_numbered (v ∷ vs) = tag_of v

  first_numbered-insert :
      (v : V) (ws : List V)
      → first_numbered (insert_sorted (higher_number name_of key) v ws)
        ≡ combine (tag_of v) (first_numbered ws)
  unfolding insert_sorted combine number_lt
  first_numbered-insert v [] = sym (combine-none (tag_of v))
  first_numbered-insert v (w ∷ ws) = ground arith

  highest_from-sorted :
      (versions : List V)
      → highest_from name_of key none versions
        ≡ first_numbered (sort_by (higher_number name_of key) versions)
  unfolding highest_from sort_by combine
  highest_from-sorted [] = refl
  highest_from-sorted (v ∷ vs) =
      ap (λ b. highest_from name_of key b vs) (better-eq-combine none (parse key (name_of v)) v)
      ∙ highest_from-eq-combine (tag_of v) vs
      ∙ ap (combine (tag_of v)) (highest_from-sorted vs)
      ∙ sym (first_numbered-insert v (sort_by (higher_number name_of key) vs))

  -- What `highest` promises: the head of `by_number` where that has a number, and else none.
  abbrev pub first_if_numbered : List V → Option V
  first_if_numbered [] = none
  first_if_numbered (v ∷ vs) = elim (parse key (name_of v)) [ none ↦ none | some p ↦ some v ]

  version_of-first_numbered : (ws : List V) → version_of (first_numbered ws) ≡ first_if_numbered ws
  version_of-first_numbered [] = refl
  version_of-first_numbered (w ∷ ws) = ground arith

  -- `highest` answers the head of `by_number` where that one has a number, and none elsewhere.
  pub highest-eq-head_by_number :
      (versions : List V)
      → highest name_of key versions ≡ first_if_numbered (by_number name_of key versions)
  unfolding highest by_number
  highest-eq-head_by_number versions =
      ap version_of (highest_from-sorted versions) ∙ version_of-first_numbered _
