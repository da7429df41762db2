-- ===== src/Analyze/Anchor/Proves.antt =====
-- The anchor that `_section_anchor` takes of a card is proven by the view without the card.
use ha_dashboard_history.Base.{
  ℕ, zero, suc, ◌+◌, ◌<◌, ◌≡◌, refl, ap, ◌∙◌, inl, inr, List, [], ◌∷◌, some, true, false, arith,
  length, get_elem?, remove_at, set, eqb, All, Text, ltb, ◌==◌, list_eq, nat_eq, list_beq_iff,
  Bool-cases,
}
use ha_dashboard_history.Base.ListLaws.{get_elem?-set_self}
use ha_dashboard_history.Value.{Value, obj, Fields, end, field, get_or_null, list, put, without}
use ha_dashboard_history.Value.Dump.{same_value, dump}
use ha_dashboard_history.Value.Laws.{IsValue, to_list-of_list, get_or_null-put_self, text_eq_refl}
use ha_dashboard_history.Restore.Types.{Step, key, index, SectionAnchor, ok}
use ha_dashboard_history.Restore.Place.{list_or_empty, cards_key, sections_key}
use ha_dashboard_history.Restore.Anchor.{anchored_index}
use ha_dashboard_history.Restore.Anchor.Complete.{anchored_index_complete}
use ha_dashboard_history.Analyze.Views.{own}
use ha_dashboard_history.Analyze.Anchor.{
  steps_eq, is_in, add_neighbour, neighbours_from, anchor_from, section_of, section_anchor,
}

is_in_one : (location : List Step) (n m : ℕ) → is_in (location, n) ((location, m) ∷ []) ≡ eqb n m
unfolding is_in
is_in_one location n m =
    let same : (location == location) ≡ true = (list_beq_iff location location).1 refl in
    rw same (ground arith)

-- Behind the card, everything survives and nothing stands ahead.
neighbours_behind :
    (location : List Step) (at n : ℕ) (cards : List Value)
    → at < n
    → neighbours_from location at ((location, at) ∷ []) [] n cards
      ≡ record { survivors = cards; before = 0; away = [] }
unfolding neighbours_from add_neighbour
neighbours_behind location at n [] h = refl
neighbours_behind location at n (c ∷ cards) h =
    let other : is_in (location, n) ((location, at) ∷ []) ≡ false =
      is_in_one location n at ∙ ground arith in
    let later : ltb n at ≡ false = ground arith in
    rw other (rw later (rw (neighbours_behind location at (suc n) cards (omega arith)) refl))

neighbours_of_card :
    (location : List Step) (at n i : ℕ) (cards : List Value)
    → at ≡ n + i
    → i < length cards
    → neighbours_from location at ((location, at) ∷ []) [] n cards
      ≡ record { survivors = remove_at i cards; before = i; away = [] }
unfolding neighbours_from add_neighbour
neighbours_of_card location at n i [] e h = absurd (omega arith)
neighbours_of_card location at n zero (c ∷ cards) e h =
    let here : is_in (location, n) ((location, at) ∷ []) ≡ true =
      is_in_one location n at ∙ ground arith in
    rw here (rw (neighbours_behind location at (suc n) cards (omega arith)) refl)
neighbours_of_card location at n (suc i) (c ∷ cards) e h =
    let other : is_in (location, n) ((location, at) ∷ []) ≡ false =
      is_in_one location n at ∙ ground arith in
    let ahead : ltb n at ≡ true = ground arith in
    rw other (
      rw ahead
        (rw (neighbours_of_card location at (suc n) i cards (omega arith) (omega arith)) refl))

without-put : (k : Text) (v : Value) (fs : Fields) → without k (put k v fs) ≡ without k fs
unfolding without put
without-put k v end = rw (text_eq_refl k) refl
without-put k v (field j w fs) = elim (Bool-cases (j == k)) [
  | inl e ↦ rw e (rw e refl)
  | inr e ↦ rw e (rw e (ap (field j w) (without-put k v fs)))
]

length-set : {A : Type 0} (xs : List A) (i : ℕ) (v : A) → length (set xs i v) ≡ length xs
length-set [] i v = refl
length-set (x ∷ xs) zero v = refl
length-set (x ∷ xs) (suc i) v = ap suc (length-set xs i v)

list_or_empty-list : (xs : List Value) → list_or_empty (list xs) ≡ ok xs
unfolding list_or_empty
list_or_empty-list xs = ap ok (to_list-of_list xs)

list_or_empty-put :
    (k : Text) (xs : List Value) (fs : Fields)
    → list_or_empty (get_or_null k (put k (list xs) fs)) ≡ ok xs
list_or_empty-put k xs fs =
    ap list_or_empty (get_or_null-put_self k (list xs) fs) ∙ list_or_empty-list xs

pub length-remove_at :
    (i : ℕ) (xs : List Value) → i < length xs → suc (length (remove_at i xs)) ≡ length xs
length-remove_at i [] h = absurd (omega arith)
length-remove_at zero (x ∷ xs) h = refl
length-remove_at (suc i) (x ∷ xs) h = ap suc (length-remove_at i xs (omega arith))

All-remove_at : (P : Value → Type 0) (i : ℕ) (xs : List Value) → All P xs → All P (remove_at i xs)
All-remove_at P i [] h = tt
All-remove_at P zero (x ∷ xs) h = h.1
All-remove_at P (suc i) (x ∷ xs) h = (h.0, All-remove_at P i xs h.1)

-- The path to the cards of the section at an index.
abbrev pub cards_of_section : ℕ → List Step
cards_of_section at = key sections_key ∷ index at ∷ key cards_key ∷ []

-- The section, and the view, with one card taken out of the section.
abbrev pub section_less : Fields → ℕ → List Value → Fields
section_less section i cards = put cards_key (list (remove_at i cards)) section

abbrev pub view_less : Fields → List Value → ℕ → Fields → ℕ → List Value → Fields
view_less view sections at section i cards =
    put sections_key (list (set sections at (obj (section_less section i cards)))) view

-- The anchor of a card that is alone in having left its section.
abbrev anchor_of : List Value → Fields → ℕ → List Value → SectionAnchor
anchor_of sections section i cards = record {
  sections = length sections;
  settings = own (obj section);
  survivors = remove_at i cards;
  before = i;
  departed = [];
}

section_anchor-eq :
    (view : Fields) (sections : List Value) (at : ℕ) (section : Fields) (cards : List Value) (i : ℕ)
    → list_or_empty (get_or_null sections_key view) ≡ ok sections
    → get_elem? sections at ≡ some (obj section)
    → list_or_empty (get_or_null cards_key section) ≡ ok cards
    → i < length cards
    → section_anchor view (cards_of_section at) i ((cards_of_section at, i) ∷ []) []
      ≡ ok (some (anchor_of sections section i cards))
unfolding section_anchor section_of anchor_from
section_anchor-eq view sections at section cards i v there c h =
    rw (text_eq_refl sections_key, section_anchor)
      (rw v (
        rw (there, anchor_from)
          (rw c (rw (neighbours_of_card (cards_of_section at) i 0 i cards (omega arith) h) refl))))

same_value_refl : (v : Value) → same_value v v ≡ true
unfolding same_value
same_value_refl v = text_eq_refl (dump v)

-- A card is taken out of its section, and nothing else changes. The anchor that `_section_anchor` made
-- of it then proves its place in the view without it: `_anchored_index` answers the index that it had.
-- The cards of the section are values that Python can hold.
pub anchored_index-section_anchor :
    (view : Fields) (sections : List Value) (at : ℕ) (section : Fields) (cards : List Value) (i : ℕ)
    → list_or_empty (get_or_null sections_key view) ≡ ok sections
    → get_elem? sections at ≡ some (obj section)
    → list_or_empty (get_or_null cards_key section) ≡ ok cards
    → i < length cards
    → All IsValue cards
    → (anchor : SectionAnchor) × (section_anchor view
          (cards_of_section at)
          i
          ((cards_of_section at, i) ∷ [])
          []
        ≡ ok (some anchor))
      × (anchored_index (view_less view sections at section i cards) (cards_of_section at) anchor
          ≡ ok (some i))
anchored_index-section_anchor view sections at section cards i v there c h good =
    let new = obj (section_less section i cards) in
    let kept : same_value (obj (without cards_key (section_less section i cards)))
          (own (obj section))
        ≡ true =
      ap (λ fs. same_value (obj fs) (own (obj section))) (without-put cards_key _ section)
      ∙ (unfold own in same_value_refl _) in
    let left = length-remove_at i cards h in
    (
      anchor_of sections section i cards,
      section_anchor-eq view sections at section cards i v there c h,
      anchored_index_complete (view_less view sections at section i cards) sections_key at
          (key cards_key ∷ []) (anchor_of sections section i cards) (set sections at new)
          (section_less section i cards) (list_or_empty-put sections_key (set sections at new) view)
          (length-set sections at new) (get_elem?-set_self sections at new (obj section) there) kept
          (list_or_empty-put cards_key (remove_at i cards) section) refl (omega arith)
          (All-remove_at IsValue i cards good),
    )
