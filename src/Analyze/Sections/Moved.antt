-- ===== src/Analyze/Sections/Moved.antt =====
-- The run that `_moved` keeps is a longest one that kept its order.
use ha_dashboard_history.Base.{
  ◌≤◌, ◌<◌, refl, Bool, true, false, List, [], ◌∷◌, none, arith, length, All, Ordered, ltb,
  sort_by-Ordered, NotAfter,
}
use ha_dashboard_history.Analyze.Sections.{
  SectionPair, longest_runs, max_of, keeps, chosen, left_out, in_old_order, kept_flags, moved,
}
use ha_dashboard_history.Analyze.Sections.Runs.{
  Rises, chosen-le-max_of, length-keeps, keeps-Rises, length-chosen-left_out, reached,
}

-- The second pair stands no earlier than the first in the old state, and behind it in the new one.
abbrev pub StandsBefore : SectionPair → SectionPair → Type 0
StandsBefore p q = (p.old.index ≤ q.old.index) × (p.new.index < q.new.index)

abbrev by_old : SectionPair → SectionPair → Bool
by_old p q = ltb p.old.index q.old.index

in_old_order-Ordered : (pairs : List SectionPair) → Ordered (NotAfter by_old) (in_old_order pairs)
unfolding in_old_order
in_old_order-Ordered = sort_by-Ordered by_old (λ x y h. ground arith) (λ x y z h k. ground arith)

All-chosen :
    (P : SectionPair → Type 0) (flags : List Bool) (pairs : List SectionPair)
    → All P pairs
    → All P (chosen flags pairs)
unfolding chosen
All-chosen P [] pairs h = tt
All-chosen P (b ∷ flags) [] h = tt
All-chosen P (true ∷ flags) (p ∷ pairs) h = (h.0, All-chosen P flags pairs h.1)
All-chosen P (false ∷ flags) (p ∷ pairs) h = All-chosen P flags pairs h.1

Ordered-chosen :
    (flags : List Bool) (pairs : List SectionPair)
    → Ordered (NotAfter by_old) pairs
    → Ordered (NotAfter by_old) (chosen flags pairs)
unfolding chosen
Ordered-chosen [] pairs h = tt
Ordered-chosen (b ∷ flags) [] h = tt
Ordered-chosen (true ∷ flags) (p ∷ pairs) h =
    (All-chosen (NotAfter by_old p) flags pairs h.0, Ordered-chosen flags pairs h.1)
Ordered-chosen (false ∷ flags) (p ∷ pairs) h = Ordered-chosen flags pairs h.1

All-StandsBefore :
    (p : SectionPair) (pairs : List SectionPair)
    → All (NotAfter by_old p) pairs
    → All (Rises p) pairs
    → All (StandsBefore p) pairs
All-StandsBefore p [] h k = tt
All-StandsBefore p (q ∷ pairs) h k = ((ground (arith, h.0), k.0), All-StandsBefore p pairs h.1 k.1)

Ordered-StandsBefore :
    (pairs : List SectionPair)
    → Ordered (NotAfter by_old) pairs
    → Ordered Rises pairs
    → Ordered StandsBefore pairs
Ordered-StandsBefore [] h k = tt
Ordered-StandsBefore (p ∷ pairs) h k =
    (All-StandsBefore p pairs h.0 k.0, Ordered-StandsBefore pairs h.1 k.1)

-- The pairs that are not reported as moved stand in one order in both states: each one behind the
-- one before it in the new state, and no earlier than it in the old one.
pub kept-StandsBefore :
    (pairs : List SectionPair)
    → Ordered StandsBefore (chosen (kept_flags (in_old_order pairs)) (in_old_order pairs))
unfolding kept_flags
kept-StandsBefore pairs =
    let ordered = in_old_order pairs in
    Ordered-StandsBefore _
      (Ordered-chosen (kept_flags ordered) ordered (in_old_order-Ordered pairs))
      (keeps-Rises _ none ordered (longest_runs ordered))

-- No choice of the pairs that keeps their order leaves out fewer than are reported as moved.
pub moved-IsFewest :
    (pairs : List SectionPair) (flags : List Bool)
    → Ordered Rises (chosen flags (in_old_order pairs))
    → length (moved pairs) ≤ length (left_out flags (in_old_order pairs))
unfolding moved kept_flags
moved-IsFewest pairs flags rises =
    let ordered = in_old_order pairs in
    let longest = longest_runs ordered in
    let most = chosen-le-max_of flags ordered rises in
    let kept = length-keeps (max_of longest) none ordered (reached (max_of longest) ordered refl) in
    let one = length-chosen-left_out flags ordered in
    let other = length-chosen-left_out (keeps (max_of longest) none ordered longest) ordered in
    omega arith
