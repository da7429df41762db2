-- ===== src/Restore/Undo/Order.antt =====
-- Why the order of the removals in `apply_undo` is right: from the highest index down.
use ha_dashboard_history.Base.{
  ℕ, zero, suc, ◌+◌, ◌≤◌, ◌<◌, ◌≡◌, refl, ap, sym, ◌∙◌, inl, inr, Bool, true, false, ◌||◌, List, [],
  ◌∷◌, some, arith, All, Ordered, Bool-cases, get_elem?, remove_at, insert_at, ltb, eqb,
  if◌then◌else◌, sort_by, insert_sorted,
}
use ha_dashboard_history.Value.{Value}
use ha_dashboard_history.Value.Laws.{IsValue, py_eq_refl}
use ha_dashboard_history.Restore.Types.{UndoStep, Result, ok, ◌>>=◌}
use ha_dashboard_history.Restore.Undo.{remove_item, highest_first}

-- The removals of one card list, one after the other.
unfoldable pub remove_items : List UndoStep → List Value → Result (List Value)
remove_items [] cards = ok cards
remove_items (s ∷ steps) cards = do cards' ← remove_item cards s; remove_items steps cards'

-- The insertions into one card list.
unfoldable pub insert_items : List UndoStep → List Value → List Value
insert_items [] cards = cards
insert_items (s ∷ steps) cards = insert_items steps (insert_at s.index s.payload cards)

abbrev pub is_index : ℕ → List UndoStep → Bool
is_index n [] = false
is_index n (s ∷ steps) = eqb n s.index || is_index n steps

-- The cards at the indices that no step names; the first card has index `n`.
unfoldable pub kept_from : ℕ → List UndoStep → List Value → List Value
kept_from n steps [] = []
kept_from n steps (c ∷ cards) =
    let rest = kept_from (suc n) steps cards in if is_index n steps then rest else c ∷ rest

-- The step is about the card that stands at its index: it expects it, or carries it.
abbrev pub Expects : List Value → UndoStep → Type 0
Expects cards s = (get_elem? cards s.index ≡ some s.expect) × IsValue s.expect

abbrev pub Carries : List Value → UndoStep → Type 0
Carries cards s = get_elem? cards s.index ≡ some s.payload

abbrev pub Apart : UndoStep → UndoStep → Type 0
Apart s t = eqb s.index t.index ≡ false

abbrev Higher : UndoStep → UndoStep → Type 0
Higher s t = t.index < s.index

abbrev pub Lower : UndoStep → UndoStep → Type 0
Lower s t = s.index < t.index

-- Sorting keeps what holds of all steps, and makes steps apart strictly ordered.
module _ (before : UndoStep → UndoStep → Bool) where
  All-insert :
      (P : UndoStep → Type 0) (s : UndoStep) (steps : List UndoStep)
      → P s
      → All P steps
      → All P (insert_sorted before s steps)
  unfolding insert_sorted
  All-insert P s [] p h = (p, tt)
  All-insert P s (t ∷ steps) p h = elim (Bool-cases (before t s)) [
    | inl e ↦ rw e (h.0, All-insert P s steps p h.1)
    | inr e ↦ rw e (p, h)
  ]

  pub All-sort :
      (P : UndoStep → Type 0) (steps : List UndoStep) → All P steps → All P (sort_by before steps)
  unfolding sort_by
  All-sort P [] h = tt
  All-sort P (s ∷ steps) h = All-insert P s (sort_by before steps) h.0 (All-sort P steps h.1)

  is_index-insert :
      (n : ℕ) (s : UndoStep) (steps : List UndoStep)
      → is_index n (insert_sorted before s steps) ≡ (eqb n s.index || is_index n steps)
  unfolding insert_sorted
  is_index-insert n s [] = refl
  is_index-insert n s (t ∷ steps) = ground (arith, is_index-insert n s steps)

  is_index-sort :
      (n : ℕ) (steps : List UndoStep) → is_index n (sort_by before steps) ≡ is_index n steps
  unfolding sort_by
  is_index-sort n [] = refl
  is_index-sort n (s ∷ steps) =
      is_index-insert n s (sort_by before steps)
      ∙ ap (λ b. eqb n s.index || b) (is_index-sort n steps)

  pub kept_from-sort :
      (n : ℕ) (steps : List UndoStep) (cards : List Value)
      → kept_from n (sort_by before steps) cards ≡ kept_from n steps cards
  unfolding kept_from
  kept_from-sort n steps [] = refl
  kept_from-sort n steps (c ∷ cards) =
      rw (is_index-sort n steps) (rw (kept_from-sort (suc n) steps cards) refl)

-- Below the index, a list with one element less is the same.
get_elem?-remove_at :
    (i j : ℕ) (cards : List Value) → i < j → get_elem? (remove_at j cards) i ≡ get_elem? cards i
get_elem?-remove_at i j [] h = refl
get_elem?-remove_at i zero (c ∷ cards) h = absurd (omega arith)
get_elem?-remove_at zero (suc j) (c ∷ cards) h = refl
get_elem?-remove_at (suc i) (suc j) (c ∷ cards) h = get_elem?-remove_at i j cards (omega arith)

is_index-Higher :
    (n : ℕ) (s : UndoStep) (steps : List UndoStep)
    → All (Higher s) steps
    → s.index ≤ n
    → is_index n steps ≡ false
is_index-Higher n s [] h le = refl
is_index-Higher n s (t ∷ steps) h le = ground (arith, is_index-Higher n s steps h.1 le)

kept_from-above :
    (n : ℕ) (s : UndoStep) (steps : List UndoStep) (cards : List Value)
    → All (Higher s) steps
    → s.index < n
    → kept_from n (s ∷ steps) cards ≡ cards
unfolding kept_from
kept_from-above n s steps [] h lt = refl
kept_from-above n s steps (c ∷ cards) h lt =
    let none_here = is_index-Higher n s steps h (omega arith) in
    let other : eqb n s.index ≡ false = ground arith in
    rw other
      (rw none_here (ap (λ cs. c ∷ cs) (kept_from-above (suc n) s steps cards h (omega arith))))

kept_from-Higher :
    (n : ℕ) (s : UndoStep) (steps : List UndoStep) (cards : List Value)
    → All (Higher s) steps
    → s.index ≤ n
    → kept_from n steps cards ≡ cards
unfolding kept_from
kept_from-Higher n s steps [] h le = refl
kept_from-Higher n s steps (c ∷ cards) h le =
    rw (is_index-Higher n s steps h le)
      (ap (λ cs. c ∷ cs) (kept_from-Higher (suc n) s steps cards h (omega arith)))

-- The highest removal first: the others find the list below it as it was.
kept_from-remove_at :
    (n i : ℕ) (s : UndoStep) (steps : List UndoStep) (cards : List Value)
    → s.index ≡ n + i
    → All (Higher s) steps
    → kept_from n (s ∷ steps) cards ≡ kept_from n steps (remove_at i cards)
unfolding kept_from
kept_from-remove_at n i s steps [] e h = refl
kept_from-remove_at n zero s steps (c ∷ cards) e h =
    let here : eqb n s.index ≡ true = ground arith in
    rw here (
      kept_from-above (suc n) s steps cards h (omega arith)
      ∙ sym (kept_from-Higher n s steps cards h (omega arith)))
kept_from-remove_at n (suc i) s steps (c ∷ cards) e h =
    let other : eqb n s.index ≡ false = ground arith in
    let IH = kept_from-remove_at (suc n) i s steps cards (omega arith) h in rw other (rw IH refl)

module _ (before : UndoStep → UndoStep → Bool) (R : UndoStep → UndoStep → Type 0)
    (of_true : (s t : UndoStep) → before t s ≡ true → R t s)
    (of_false : (s t : UndoStep) → before t s ≡ false → Apart s t → R s t)
    (trans : (s t u : UndoStep) → R s t → R t u → R s u) where
  All-trans : (s t : UndoStep) (steps : List UndoStep) → R s t → All (R t) steps → All (R s) steps
  All-trans s t [] r h = tt
  All-trans s t (u ∷ steps) r h = (trans s t u r h.0, All-trans s t steps r h.1)

  Ordered-insert :
      (s : UndoStep) (steps : List UndoStep)
      → All (Apart s) steps
      → Ordered R steps
      → Ordered R (insert_sorted before s steps)
  unfolding insert_sorted
  Ordered-insert s [] a o = (tt, tt)
  Ordered-insert s (t ∷ steps) a o = elim (Bool-cases (before t s)) [
    | inl e ↦
        rw e (All-insert before (R t) s steps (of_true s t e) o.0, Ordered-insert s steps a.1 o.1)
    | inr e ↦ let r : R s t = of_false s t e a.0 in rw e ((r, All-trans s t steps r o.0), o)
  ]

  pub Ordered-sort :
      (steps : List UndoStep) → Ordered Apart steps → Ordered R (sort_by before steps)
  unfolding sort_by
  Ordered-sort [] o = tt
  Ordered-sort (s ∷ steps) o =
      Ordered-insert s (sort_by before steps) (All-sort before (Apart s) steps o.0)
        (Ordered-sort steps o.1)

pub kept_nil : (n : ℕ) (cards : List Value) → kept_from n [] cards ≡ cards
unfolding kept_from
kept_nil n [] = refl
kept_nil n (c ∷ cards) = ap (λ cs. c ∷ cs) (kept_nil (suc n) cards)

remove_item-eq :
    (cards : List Value) (s : UndoStep)
    → Expects cards s
    → remove_item cards s ≡ ok (remove_at s.index cards)
unfolding remove_item
remove_item-eq cards s (there, good) = rw (there, remove_item) (rw (py_eq_refl good) refl)

Expects-remove_at :
    (cards : List Value) (s : UndoStep) (steps : List UndoStep)
    → All (Higher s) steps
    → All (Expects cards) steps
    → All (Expects (remove_at s.index cards)) steps
Expects-remove_at cards s [] h e = tt
Expects-remove_at cards s (t ∷ steps) h e = (
  (get_elem?-remove_at t.index s.index cards h.0 ∙ e.0.0, e.0.1),
  Expects-remove_at cards s steps h.1 e.1,
)

remove_items-Higher :
    (steps : List UndoStep) (cards : List Value)
    → Ordered Higher steps
    → All (Expects cards) steps
    → remove_items steps cards ≡ ok (kept_from 0 steps cards)
unfolding remove_items
remove_items-Higher [] cards o e = ap ok (sym (kept_nil 0 cards))
remove_items-Higher (s ∷ steps) cards o e = rw (remove_item-eq cards s e.0) (
    remove_items-Higher steps (remove_at s.index cards) o.1
      (Expects-remove_at cards s steps o.0 e.1)
    ∙ ap ok (sym (kept_from-remove_at 0 s.index s steps cards (omega arith) o.0)))

-- Removals from one list, planned each against the list as it was, with different indices: run from the
-- highest index down, all of them succeed, and exactly the cards at their indices are gone.
pub remove_items-highest_first :
    (steps : List UndoStep) (cards : List Value)
    → Ordered Apart steps
    → All (Expects cards) steps
    → remove_items (highest_first steps) cards ≡ ok (kept_from 0 steps cards)
unfolding highest_first
remove_items-highest_first steps cards apart e =
    let before : UndoStep → UndoStep → Bool = λ s t. ltb t.index s.index in
    remove_items-Higher (sort_by before steps) cards
      (Ordered-sort before Higher (λ s t h. ground arith) (λ s t h a. ground arith)
        (λ s t u h k. omega arith) steps apart)
      (All-sort before (Expects cards) steps e)
    ∙ ap ok (kept_from-sort before 0 steps cards)
