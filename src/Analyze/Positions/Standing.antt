-- ===== src/Analyze/Positions/Standing.antt =====
-- What `_by_position` gives: the views without a path, at their positions.
use ha_dashboard_history.Base.{
  ℕ, zero, suc, ltb, ◌+◌, ◌<◌, ◌≡◌, refl, ap, ◌∙◌, inl, inr, Bool, true, false, List, [], ◌∷◌,
  Option, none, some, arith, lookup, eqb, get_elem?, nat_eq, Bool-cases,
}
use ha_dashboard_history.Value.{Value, null, bool, int, str, arr, obj, Fields, get_or_null, truthy}
use ha_dashboard_history.Restore.Types.{ok, ◌>>=◌}
use ha_dashboard_history.Restore.Place.{path_key}
use ha_dashboard_history.Analyze.Views.{
  by_position, keyed_from, positions_in, key_of_view, within, views_by_key,
}
use ha_dashboard_history.Analyze.Positions.{views_in}

abbrev without_path : Fields → Bool → Option Fields
without_path view true = none
without_path view false = some view

abbrev pathless : Option Value → Option Fields
pathless (some (obj view)) = without_path view (truthy (get_or_null path_key view))
pathless _ = none

-- The view without a path that stands at a position, if one does.
abbrev pub pathless_at : List Value → ℕ → Option Fields
pathless_at views i = pathless (get_elem? views i)

pub lookup-skip :
    (m n : ℕ) (view : Fields) (rest : List (ℕ × Fields))
    → eqb m n ≡ false
    → lookup m ((n, view) ∷ rest) ≡ lookup m rest
unfolding lookup
lookup-skip m n view rest e = rw (e, lookup) refl

lookup-hit :
    (m : ℕ) (view : Fields) (rest : List (ℕ × Fields)) → lookup m ((m, view) ∷ rest) ≡ some view
unfolding lookup
lookup-hit m view rest = let e : eqb m m ≡ true = ground arith in rw (e, lookup) refl

pub lookup-same :
    (m n : ℕ) (view : Fields) (rest : List (ℕ × Fields))
    → eqb m n ≡ true
    → lookup m ((n, view) ∷ rest) ≡ some view
unfolding lookup
lookup-same m n view rest e = rw (e, lookup) refl

-- An entry in front of the others, where it is within the limit and has no path.
abbrev add_at : ℕ → Bool → Option Fields → List (ℕ × Fields) → List (ℕ × Fields)
add_at n fits none rest = rest
add_at n true (some view) rest = (n, view) ∷ rest
add_at n false (some view) rest = rest

lookup-add_at :
    (m n : ℕ) (fits : Bool) (o : Option Fields) (rest : List (ℕ × Fields))
    → eqb m n ≡ false
    → lookup m (add_at n fits o rest) ≡ lookup m rest
lookup-add_at m n fits none rest e = refl
lookup-add_at m n true (some view) rest e = lookup-skip m n view rest e
lookup-add_at m n false (some view) rest e = refl

module _ (before : ℕ) where
  abbrev pub positions : ℕ → List Value → List (ℕ × Fields)
  positions n views = positions_in (some before) (keyed_from n views)

  positions-obj :
      (n : ℕ) (view : Fields) (views : List Value) (b : Bool)
      → truthy (get_or_null path_key view) ≡ b
      → positions n (obj view ∷ views)
        ≡ add_at n (ltb n before) (without_path view b) (positions (suc n) views)
  unfolding positions_in keyed_from key_of_view within
  positions-obj n view views true e = rw e refl
  positions-obj n view views false e = elim (Bool-cases (ltb n before)) [
    | inl w ↦ rw (e, w) refl
    | inr w ↦ rw (e, w) refl
  ]

  positions-cons :
      (n : ℕ) (v : Value) (views : List Value)
      → positions n (v ∷ views)
        ≡ add_at n (ltb n before) (pathless (some v)) (positions (suc n) views)
  unfolding keyed_from
  positions-cons n (obj view) views = positions-obj n view views _ refl
  positions-cons n null views = refl
  positions-cons n (bool b) views = refl
  positions-cons n (int i) views = refl
  positions-cons n (str s) views = refl
  positions-cons n (arr xs) views = refl

  lookup-below : (m n : ℕ) (views : List Value) → m < n → lookup m (positions n views) ≡ none
  unfolding positions_in keyed_from lookup
  lookup-below m n [] less = refl
  lookup-below m n (v ∷ views) less =
      ap (lookup m) (positions-cons n v views)
      ∙ (lookup-add_at m n (ltb n before) (pathless (some v)) (positions (suc n) views)
            (ground arith)
          ∙ lookup-below m (suc n) views (omega arith))

  first_entry :
      (n : ℕ) (o : Option Fields) (views : List Value)
      → n < before
      → lookup n (add_at n (ltb n before) o (positions (suc n) views)) ≡ o
  first_entry n none views less = lookup-below n (suc n) views (omega arith)
  first_entry n (some view) views less =
      let w : ltb n before ≡ true = ground arith in
      rw w (lookup-hit n view (positions (suc n) views))

  pub lookup-positions :
      (m n i : ℕ) (views : List Value)
      → m ≡ n + i
      → m < before
      → lookup m (positions n views) ≡ pathless_at views i
  unfolding positions_in keyed_from lookup
  lookup-positions m n i [] e less = refl
  lookup-positions m n zero (v ∷ views) e less =
      let same : m ≡ n = omega (arith, e) in
      ap (λ k. lookup k (positions n (v ∷ views))) same
      ∙ (ap (lookup n) (positions-cons n v views)
          ∙ first_entry n (pathless (some v)) views (omega (arith, same)))
  lookup-positions m n (suc i) (v ∷ views) e less =
      ap (lookup m) (positions-cons n v views)
      ∙ (lookup-add_at m n (ltb n before) (pathless (some v)) (positions (suc n) views)
            (ground arith)
          ∙ lookup-positions m (suc n) i views (omega (arith, e)) less)

views_by_key-eq :
    (config : Fields) (views : List Value)
    → views_in config ≡ ok views
    → views_by_key config ≡ ok (keyed_from 0 views)
unfolding views_by_key views_in
views_by_key-eq config views h = ap (λ r. r >>= λ views. ok (keyed_from 0 views)) h

pub by_position-eq :
    (config : Fields) (views : List Value) (before : ℕ)
    → views_in config ≡ ok views
    → by_position config (some before) ≡ ok (positions before 0 views)
unfolding by_position
by_position-eq config views before h =
    ap (λ r. r >>= λ keyed. ok (positions_in (some before) keyed)) (views_by_key-eq config views h)
