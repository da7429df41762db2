-- ===== src/Restore/Undo/Lowest.antt =====
-- Insertions from the lowest index up.
use ha_dashboard_history.Base.{
  ℕ, zero, suc, ◌+◌, ◌≤◌, ◌<◌, ◌≡◌, refl, ap, sym, ◌∙◌, Bool, true, false, List, [], ◌∷◌, some,
  arith, All, Ordered, get_elem?, insert_at, ltb, eqb, sort_by,
}
use ha_dashboard_history.Value.{Value}
use ha_dashboard_history.Restore.Types.{UndoStep}
use ha_dashboard_history.Restore.Undo.{lowest_first}
use ha_dashboard_history.Restore.Undo.Order.{
  insert_items, is_index, kept_from, Carries, Apart, Lower, All-sort, kept_from-sort, Ordered-sort,
  kept_nil,
}

is_index-Lower :
    (n : ℕ) (s : UndoStep) (steps : List UndoStep)
    → All (Lower s) steps
    → n ≤ s.index
    → is_index n steps ≡ false
is_index-Lower n s [] h le = refl
is_index-Lower n s (t ∷ steps) h le = ground (arith, is_index-Lower n s steps h.1 le)

kept_from-below :
    (n : ℕ) (s : UndoStep) (steps : List UndoStep) (cards : List Value)
    → s.index < n
    → kept_from n (s ∷ steps) cards ≡ kept_from n steps cards
unfolding kept_from
kept_from-below n s steps [] lt = refl
kept_from-below n s steps (c ∷ cards) lt =
    let other : eqb n s.index ≡ false = ground arith in
    rw other (rw (kept_from-below (suc n) s steps cards (omega arith)) refl)

-- One insertion gives back the card of the lowest index.
insert_at-kept_from :
    (n i : ℕ) (s : UndoStep) (steps : List UndoStep) (cards : List Value)
    → s.index ≡ n + i
    → All (Lower s) steps
    → get_elem? cards i ≡ some s.payload
    → insert_at i s.payload (kept_from n (s ∷ steps) cards) ≡ kept_from n steps cards
unfolding kept_from
insert_at-kept_from n i s steps [] e h g = absurd (cc)
insert_at-kept_from n zero s steps (c ∷ cards) e h g =
    let here : eqb n s.index ≡ true = ground arith in
    let free = is_index-Lower n s steps h (omega arith) in
    let same : s.payload ≡ c = cc in
    rw here (
      rw free (
        rw (kept_from-below (suc n) s steps cards (omega arith))
          (ap (λ d. d ∷ kept_from (suc n) steps cards) same)))
insert_at-kept_from n (suc i) s steps (c ∷ cards) e h g =
    let other : eqb n s.index ≡ false = ground arith in
    let free = is_index-Lower n s steps h (omega arith) in
    rw other
      (rw free (ap (λ cs. c ∷ cs) (insert_at-kept_from (suc n) i s steps cards (omega arith) h g)))

insert_items-Lower :
    (steps : List UndoStep) (cards : List Value)
    → Ordered Lower steps
    → All (Carries cards) steps
    → insert_items steps (kept_from 0 steps cards) ≡ cards
unfolding insert_items
insert_items-Lower [] cards o c = kept_nil 0 cards
insert_items-Lower (s ∷ steps) cards o c =
    ap (insert_items steps) (insert_at-kept_from 0 s.index s steps cards (omega arith) o.0 c.0)
    ∙ insert_items-Lower steps cards o.1 c.1

-- Insertions into one list from which exactly the cards at their indices, all different, are missing: run
-- from the lowest index up, each lands at its index, and the list is the one from before.
pub insert_items-lowest_first :
    (steps : List UndoStep) (cards : List Value)
    → Ordered Apart steps
    → All (Carries cards) steps
    → insert_items (lowest_first steps) (kept_from 0 steps cards) ≡ cards
unfolding lowest_first
insert_items-lowest_first steps cards apart c =
    let before : UndoStep → UndoStep → Bool = λ s t. ltb s.index t.index in
    ap (insert_items (sort_by before steps)) (sym (kept_from-sort before 0 steps cards))
    ∙ insert_items-Lower (sort_by before steps) cards
        (Ordered-sort before Lower (λ s t h. ground arith) (λ s t h a. ground arith)
          (λ s t u h k. omega arith) steps apart)
        (All-sort before (Carries cards) steps c)
