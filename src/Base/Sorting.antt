-- ===== src/Base/Sorting.antt =====
-- Python's `sorted`, a stable sort, by a strict test `before`.
use mathlib.Core.Path.{◌≡◌}
use mathlib.Core.Bool.{Bool, true, false}
use mathlib.Core.Logic.{inl, inr}
use mathlib.Core.List.{List, [], ◌∷◌, Perm}
use mathlib.Core.List.Perm
use ha_dashboard_history.Base.Tests.{if◌then◌else◌, Bool-cases}
use ha_dashboard_history.Base.Lists.{All, Ordered}

module _ {A : Type 0} (before : A → A → Bool) where
  -- In front of the elements that compare equal: it stood before them.
  unfoldable pub insert_sorted : A → List A → List A
  insert_sorted x [] = x ∷ []
  insert_sorted x (y ∷ ys) = if before y x then y ∷ insert_sorted x ys else x ∷ y ∷ ys

  unfoldable pub sort_by : List A → List A
  unfolding insert_sorted
  sort_by [] = []
  sort_by (x ∷ xs) = insert_sorted x (sort_by xs)

  insert_sorted-perm : (x : A) (xs : List A) → Perm (insert_sorted x xs) (x ∷ xs)
  unfolding insert_sorted
  insert_sorted-perm x [] = Perm.rfl
  insert_sorted-perm x (y ∷ ys) = elim (Bool-cases (before y x)) [
    | inl e ↦
        rw (e, insert_sorted)
          (Perm.trans (Perm.cons y (insert_sorted-perm x ys)) (Perm.swap x y ys))
    | inr e ↦ rw (e, insert_sorted) Perm.rfl
  ]

  -- The result holds the elements given, each as often.
  pub sort_by-perm : (xs : List A) → Perm (sort_by xs) xs
  unfolding sort_by
  sort_by-perm [] = Perm.rfl
  sort_by-perm (x ∷ xs) =
      Perm.trans (insert_sorted-perm x (sort_by xs)) (Perm.cons x (sort_by-perm xs))

  -- No later element belongs before an earlier one.
  abbrev pub NotAfter : A → A → Type 0
  NotAfter x y = before y x ≡ false

module _ {A : Type 0} (before : A → A → Bool)
    (asym : (x y : A) → before x y ≡ true → before y x ≡ false)
    (trans : (x y z : A) → before y x ≡ false → before z y ≡ false → before z x ≡ false) where
  All-insert_sorted :
      (P : A → Type 0) (x : A) (xs : List A) → P x → All P xs → All P (insert_sorted before x xs)
  unfolding insert_sorted
  All-insert_sorted P x [] p h = (p, tt)
  All-insert_sorted P x (y ∷ ys) p h = elim (Bool-cases (before y x)) [
    | inl e ↦ rw (e, insert_sorted, All) (h.0, All-insert_sorted P x ys p h.1)
    | inr e ↦ rw (e, insert_sorted, All) (p, (h.0, h.1))
  ]

  All-NotAfter :
      (x y : A) (ys : List A)
      → before y x ≡ false
      → All (NotAfter before y) ys
      → All (NotAfter before x) ys
  All-NotAfter x y [] e h = tt
  All-NotAfter x y (z ∷ zs) e h = (trans x y z e h.0, All-NotAfter x y zs e h.1)

  insert_sorted-Ordered :
      (x : A) (xs : List A)
      → Ordered (NotAfter before) xs
      → Ordered (NotAfter before) (insert_sorted before x xs)
  unfolding insert_sorted
  insert_sorted-Ordered x [] h = (tt, tt)
  insert_sorted-Ordered x (y ∷ ys) h = elim (Bool-cases (before y x)) [
    | inl e ↦
        rw (e, insert_sorted, Ordered)
          (
            All-insert_sorted (NotAfter before y) x ys (asym y x e) h.0,
            insert_sorted-Ordered x ys h.1,
          )
    | inr e ↦ rw (e, insert_sorted, Ordered) ((e, All-NotAfter x y ys e h.0), h)
  ]

  -- For a strict weak order the result is in order.
  pub sort_by-Ordered : (xs : List A) → Ordered (NotAfter before) (sort_by before xs)
  unfolding sort_by
  sort_by-Ordered [] = tt
  sort_by-Ordered (x ∷ xs) = insert_sorted-Ordered x (sort_by before xs) (sort_by-Ordered xs)
