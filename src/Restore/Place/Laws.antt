-- ===== src/Restore/Place/Laws.antt =====
-- Finding a list again after another one was written in its place.
use ha_dashboard_history.Base.{
  ℕ, ◌≡◌, ap, sym, ◌∙◌, List, [], ◌∷◌, Option, none, some, false, Text, get_elem?, set,
  Option-cases, inl, inr, ◌==◌, list_eq, nat_eq,
}
use ha_dashboard_history.Base.ListLaws.{get_elem?-set_self, set-set_self}
use ha_dashboard_history.Value.{
  Value, arr, obj, Items, Fields, get, get_or_null, put, list, to_list, of_list, as_list,
}
use ha_dashboard_history.Value.Laws.{
  to_list-of_list, of_list-to_list, get-put_self, put-get_self, put-put_self, get_or_null-put_ne,
}
use ha_dashboard_history.Restore.Types.{Step, key, index}
use ha_dashboard_history.Restore.Place.{cards_at, replace_at, path_key}

module _ (location : List Step) where
  pub cards_at_index :
      (xs : Items) (i : ℕ) {o : Option Value}
      → get_elem? (to_list xs) i ≡ o
      → cards_at (arr xs) (index i ∷ location)
        ≡ elim o [ none ↦ none | some w ↦ cards_at w location ]
  unfolding cards_at
  cards_at_index xs i e = rw (e, cards_at)

  pub cards_at_key :
      (fs : Fields) (k : Text) {o : Option Value}
      → get k fs ≡ o
      → cards_at (obj fs) (key k ∷ location) ≡ elim o [ none ↦ none | some w ↦ cards_at w location ]
  unfolding cards_at
  cards_at_key fs k e = rw (e, cards_at)

  pub replace_at_index :
      (xs : Items) (i : ℕ) (new : List Value) {w : Value}
      → get_elem? (to_list xs) i ≡ some w
      → replace_at (arr xs) (index i ∷ location) new
        ≡ list (set (to_list xs) i (replace_at w location new))
  unfolding replace_at
  replace_at_index xs i new e = rw (e, replace_at)

  pub replace_at_key :
      (fs : Fields) (k : Text) (new : List Value) {w : Value}
      → get k fs ≡ some w
      → replace_at (obj fs) (key k ∷ location) new ≡ obj (put k (replace_at w location new) fs)
  unfolding replace_at
  replace_at_key fs k new e = rw (e, replace_at)

-- What is read after a write at the same place.
pub cards_at-replace_at :
    (location : List Step) (v : Value) (old new : List Value)
    → cards_at v location ≡ some old
    → cards_at (replace_at v location new) location ≡ some new
unfolding cards_at replace_at as_list
cards_at-replace_at [] v old new h = ap some (to_list-of_list new)
cards_at-replace_at (index i ∷ location) (arr xs) old new h =
    elim (Option-cases (get_elem? (to_list xs) i)) [
      | inl e ↦ cc (cards_at_index location xs i e)
      | inr (w, e) ↦
          let new_w = replace_at w location new in
          let there : get_elem? (to_list (of_list (set (to_list xs) i new_w))) i ≡ some new_w =
            ap (λ ys. get_elem? ys i) (to_list-of_list (set (to_list xs) i new_w))
            ∙ get_elem?-set_self (to_list xs) i new_w w e in
          ap (λ u. cards_at u (index i ∷ location)) (replace_at_index location xs i new e)
          ∙ cards_at_index location (of_list (set (to_list xs) i new_w)) i there
          ∙ cards_at-replace_at location w old new (sym (cards_at_index location xs i e) ∙ h)
    ]
cards_at-replace_at (key k ∷ location) (obj fs) old new h = elim (Option-cases (get k fs)) [
  | inl e ↦ cc (cards_at_key location fs k e)
  | inr (w, e) ↦
      let new_w = replace_at w location new in
      ap (λ u. cards_at u (key k ∷ location)) (replace_at_key location fs k new e)
      ∙ cards_at_key location (put k new_w fs) k (get-put_self k new_w fs)
      ∙ cards_at-replace_at location w old new (sym (cards_at_key location fs k e) ∙ h)
]
cards_at-replace_at (_ ∷ location) v old new h = cc

-- Writing the old list back undoes the write.
pub replace_at-replace_at :
    (location : List Step) (v : Value) (old new : List Value)
    → cards_at v location ≡ some old
    → replace_at (replace_at v location new) location old ≡ v
unfolding cards_at replace_at as_list
replace_at-replace_at [] (arr xs) old new h = cc (of_list-to_list xs)
replace_at-replace_at [] v old new h = cc
replace_at-replace_at (index i ∷ location) (arr xs) old new h =
    elim (Option-cases (get_elem? (to_list xs) i)) [
      | inl e ↦ cc (cards_at_index location xs i e)
      | inr (w, e) ↦
          let new_w = replace_at w location new in
          let written = set (to_list xs) i new_w in
          let same : to_list (of_list written) ≡ written = to_list-of_list written in
          let there : get_elem? (to_list (of_list written)) i ≡ some new_w =
            ap (λ ys. get_elem? ys i) same ∙ get_elem?-set_self (to_list xs) i new_w w e in
          let back : replace_at new_w location old ≡ w =
            replace_at-replace_at location w old new (sym (cards_at_index location xs i e) ∙ h) in
          ap (λ u. replace_at u (index i ∷ location) old) (replace_at_index location xs i new e)
          ∙ replace_at_index location (of_list written) i old there
          ∙ ap arr (
              ap of_list (
                ap (λ u. set (to_list (of_list written)) i u) back
                ∙ ap (λ ys. set ys i w) same
                ∙ set-set_self (to_list xs) i new_w w e)
              ∙ of_list-to_list xs)
    ]
replace_at-replace_at (key k ∷ location) (obj fs) old new h = elim (Option-cases (get k fs)) [
  | inl e ↦ cc (cards_at_key location fs k e)
  | inr (w, e) ↦
      let new_w = replace_at w location new in
      let back : replace_at new_w location old ≡ w =
        replace_at-replace_at location w old new (sym (cards_at_key location fs k e) ∙ h) in
      ap (λ u. replace_at u (key k ∷ location) old) (replace_at_key location fs k new e)
      ∙ replace_at_key location (put k new_w fs) k old (get-put_self k new_w fs)
      ∙ ap obj (
          ap (λ u. put k u (put k new_w fs)) back
          ∙ put-put_self k new_w w fs
          ∙ put-get_self k w fs e)
]
replace_at-replace_at (_ ∷ location) v old new h = cc

-- The written view, where the way begins with a key: a view with the same path.
pub record Rewritten (view : Fields) (location : List Step) (new : List Value) : Type 0 where
  pub view' : Fields
  pub written : replace_at (obj view) location new ≡ obj view'
  pub same_path : get_or_null path_key view' ≡ get_or_null path_key view

pub replace_at-Rewritten :
    (k : Text) (location : List Step) (view : Fields) (old new : List Value)
    → (k == path_key) ≡ false
    → cards_at (obj view) (key k ∷ location) ≡ some old
    → Rewritten view (key k ∷ location) new
replace_at-Rewritten k location view old new other h = elim (Option-cases (get k view)) [
  | inl e ↦ absurd (cc (cards_at_key location view k e))
  | inr (w, e) ↦
      let new_w = replace_at w location new in
      record {
        view' = put k new_w view;
        written = replace_at_key location view k new e;
        same_path = get_or_null-put_ne k path_key new_w view other;
      }
]
