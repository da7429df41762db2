-- ===== src/Base/ListLaws.antt =====
-- What inserting, removing and writing at an index do to a list.
use native.Mathlib.Nat.{zero-min, min-zero, suc-min-suc}
use ha_dashboard_history.Base.{
  ℕ, zero, suc, min, ◌≡◌, refl, ap, List, [], ◌∷◌, some, length, get_elem?, insert_at, remove_at,
  set,
}

module _ {ℓ} {A : Type ℓ} where
  pub get_elem?-insert_at :
      (i : ℕ) (a : A) (xs : List A) → get_elem? (insert_at i a xs) (min i (length xs)) ≡ some a
  get_elem?-insert_at zero a xs = rw (zero-min (length xs))
  get_elem?-insert_at (suc i) a [] = rw (min-zero (suc i))
  get_elem?-insert_at (suc i) a (x ∷ xs) =
      rw (suc-min-suc i (length xs)) (get_elem?-insert_at i a xs)

  pub remove_at-insert_at :
      (i : ℕ) (a : A) (xs : List A) → remove_at (min i (length xs)) (insert_at i a xs) ≡ xs
  remove_at-insert_at zero a [] = refl
  remove_at-insert_at zero a (x ∷ xs) = rw (zero-min (suc (length xs)))
  remove_at-insert_at (suc i) a [] = rw (min-zero (suc i))
  remove_at-insert_at (suc i) a (x ∷ xs) =
      rw (suc-min-suc i (length xs)) (ap (λ ys. x ∷ ys) (remove_at-insert_at i a xs))

  pub get_elem?-set_self :
      (xs : List A) (i : ℕ) (v w : A) → get_elem? xs i ≡ some w → get_elem? (set xs i v) i ≡ some v
  get_elem?-set_self [] i v w h = absurd (cc)
  get_elem?-set_self (x ∷ xs) zero v w h = refl
  get_elem?-set_self (x ∷ xs) (suc i) v w h = get_elem?-set_self xs i v w h

  pub set-set_self :
      (xs : List A) (i : ℕ) (v w : A) → get_elem? xs i ≡ some w → set (set xs i v) i w ≡ xs
  set-set_self [] i v w h = refl
  set-set_self (x ∷ xs) zero v w h = cc
  set-set_self (x ∷ xs) (suc i) v w h = ap (λ ys. x ∷ ys) (set-set_self xs i v w h)
