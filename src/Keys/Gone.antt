-- ===== src/Keys/Gone.antt =====
-- What `deletions_to_record` records, and how it agrees with `is_live` and `is_absent`.
use ha_dashboard_history.Base.{
  ◌≡◌, refl, ap, ◌∙◌, inl, inr, Bool, true, not, ◌&&◌, ◌||◌, List, [], ◌∷◌, Option, none, some,
  Text, contains, ◌==◌, list_eq, nat_eq, list_beq_iff, sort_by, insert_sorted, text_lt, arith,
  Bool-cases,
}
use ha_dashboard_history.Keys.{deletions_to_record, distinct, without_keys, is_live, is_absent}

contains-insert_sorted :
    (before : Text → Text → Bool) (k x : Text) (xs : List Text)
    → contains k (insert_sorted before x xs) ≡ (k == x || contains k xs)
unfolding insert_sorted contains
contains-insert_sorted before k x [] = refl
contains-insert_sorted before k x (y ∷ ys) = ground (arith, contains-insert_sorted before k x ys)

pub contains-sort_by :
    (before : Text → Text → Bool) (k : Text) (xs : List Text)
    → contains k (sort_by before xs) ≡ contains k xs
unfolding sort_by contains
contains-sort_by before k [] = refl
contains-sort_by before k (x ∷ xs) =
    contains-insert_sorted before k x (sort_by before xs)
    ∙ ap (λ b. k == x || b) (contains-sort_by before k xs)

pub contains-distinct : (k : Text) (ks : List Text) → contains k (distinct ks) ≡ contains k ks
unfolding distinct contains
contains-distinct k [] = refl
contains-distinct k (j ∷ ks) = elim (Bool-cases (k == j)) [
  | inl e ↦ let same : k ≡ j = (list_beq_iff k j).0 e in ground (arith, contains-distinct k ks)
  | inr e ↦ ground (arith, contains-distinct k ks)
]

pub contains-without_keys :
    (k : Text) (ks others : List Text)
    → contains k (without_keys ks others) ≡ (contains k ks && not (contains k others))
unfolding without_keys contains
contains-without_keys k [] others = refl
contains-without_keys k (j ∷ ks) others = elim (Bool-cases (k == j)) [
  | inl e ↦
      let same : k ≡ j = (list_beq_iff k j).0 e in ground (arith, contains-without_keys k ks others)
  | inr e ↦ ground (arith, contains-without_keys k ks others)
]

-- A key is recorded as deleted exactly when it is tracked and Home Assistant says that it is absent.
pub contains-deletions_to_record :
    (k : Text) (tracked : List Text) (known : Option (List Text))
    → contains k (deletions_to_record tracked known) ≡ (contains k tracked && is_absent k known)
unfolding deletions_to_record is_absent contains
contains-deletions_to_record k tracked none = ground arith
contains-deletions_to_record k tracked (some known) =
    contains-sort_by text_lt k (without_keys (distinct tracked) known)
    ∙ contains-without_keys k (distinct tracked) known
    ∙ ap (λ b. b && not (contains k known)) (contains-distinct k tracked)

-- Every tracked key is either live or recorded as deleted, and no key is both.
pub is_live-deletions_to_record :
    (k : Text) (tracked : List Text) (known : Option (List Text))
    → contains k tracked ≡ true
    → is_live k tracked known ≡ not (contains k (deletions_to_record tracked known))
unfolding is_live is_absent
is_live-deletions_to_record k tracked none h =
    ground (arith, contains-deletions_to_record k tracked none)
is_live-deletions_to_record k tracked (some known) h =
    ground (arith, contains-deletions_to_record k tracked (some known))
