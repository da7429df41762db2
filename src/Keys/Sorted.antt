-- ===== src/Keys/Sorted.antt =====
-- The list of `deletions_to_record` is strictly ascending.
use ha_dashboard_history.Base.{
  ◌≡◌, refl, ◌∙◌, inl, inr, true, false, List, [], ◌∷◌, Option, none, some, Text, contains, ◌==◌,
  list_eq, nat_eq, list_beq, sort_by, insert_sorted, text_lt, arith, Bool-cases, All, Ordered,
}
use ha_dashboard_history.Keys.{deletions_to_record, distinct, without_keys}
use ha_dashboard_history.Keys.Gone.{contains-without_keys, contains-sort_by}

text_lt_trans : (r s t : Text) → text_lt r s ≡ true → text_lt s t ≡ true → text_lt r t ≡ true
unfolding text_lt
text_lt_trans r [] t h k = absurd (cc)
text_lt_trans r (c ∷ s) [] h k = absurd (cc)
text_lt_trans [] (c ∷ s) (d ∷ t) h k = refl
text_lt_trans (b ∷ r) (c ∷ s) (d ∷ t) h k = ground (arith, text_lt_trans r s t)

text_lt_total : (s t : Text) → text_lt s t ≡ false → (t == s) ≡ false → text_lt t s ≡ true
unfolding text_lt list_beq
text_lt_total [] [] h k = absurd (cc)
text_lt_total [] (d ∷ t) h k = absurd (cc)
text_lt_total (c ∷ s) [] h k = refl
text_lt_total (c ∷ s) (d ∷ t) h k = ground (arith, text_lt_total s t)

abbrev pub Before : Text → Text → Type 0
Before s t = text_lt s t ≡ true

abbrev NoRepeat : List Text → Type 0
NoRepeat [] = Unit
NoRepeat (k ∷ ks) = (contains k ks ≡ false) × NoRepeat ks

NoRepeat-distinct : (ks : List Text) → NoRepeat (distinct ks)
unfolding distinct
NoRepeat-distinct [] = tt
NoRepeat-distinct (k ∷ ks) = elim (Bool-cases (contains k (distinct ks))) [
  | inl e ↦ rw e (NoRepeat-distinct ks)
  | inr e ↦ rw e (e, NoRepeat-distinct ks)
]

NoRepeat-without_keys : (ks others : List Text) → NoRepeat ks → NoRepeat (without_keys ks others)
unfolding without_keys
NoRepeat-without_keys [] others h = tt
NoRepeat-without_keys (k ∷ ks) others h = elim (Bool-cases (contains k others)) [
  | inl e ↦ rw e (NoRepeat-without_keys ks others h.1)
  | inr e ↦
      rw e (
        ground (arith, contains-without_keys k ks others, h.0),
        NoRepeat-without_keys ks others h.1,
      )
]

All-Before : (x y : Text) (ys : List Text) → Before x y → All (Before y) ys → All (Before x) ys
All-Before x y [] e h = tt
All-Before x y (z ∷ zs) e h = (text_lt_trans x y z e h.0, All-Before x y zs e h.1)

All-insert :
    (y x : Text) (xs : List Text)
    → Before y x
    → All (Before y) xs
    → All (Before y) (insert_sorted text_lt x xs)
unfolding insert_sorted
All-insert y x [] e h = (e, tt)
All-insert y x (z ∷ zs) e h = elim (Bool-cases (text_lt z x)) [
  | inl k ↦ rw k (h.0, All-insert y x zs e h.1)
  | inr k ↦ rw k (e, h)
]

insert_sorted-Before :
    (x : Text) (xs : List Text)
    → contains x xs ≡ false
    → Ordered Before xs
    → Ordered Before (insert_sorted text_lt x xs)
unfolding insert_sorted contains
insert_sorted-Before x [] h o = (tt, tt)
insert_sorted-Before x (y ∷ ys) h o = elim (Bool-cases (text_lt y x)) [
  | inl e ↦ rw e (All-insert y x ys e o.0, insert_sorted-Before x ys (ground arith) o.1)
  | inr e ↦
      let x_y : Before x y = text_lt_total y x e (ground arith) in
      rw e ((x_y, All-Before x y ys x_y o.0), o)
]

sort_by-Before : (xs : List Text) → NoRepeat xs → Ordered Before (sort_by text_lt xs)
unfolding sort_by
sort_by-Before [] h = tt
sort_by-Before (x ∷ xs) h =
    insert_sorted-Before x (sort_by text_lt xs) (contains-sort_by text_lt x xs ∙ h.0)
      (sort_by-Before xs h.1)

-- The keys recorded as deleted ascend strictly, so none is there twice.
pub deletions_to_record-Ordered :
    (tracked : List Text) (known : Option (List Text))
    → Ordered Before (deletions_to_record tracked known)
unfolding deletions_to_record
deletions_to_record-Ordered tracked none = tt
deletions_to_record-Ordered tracked (some known) =
    sort_by-Before _ (NoRepeat-without_keys (distinct tracked) known (NoRepeat-distinct tracked))
