-- ===== src/Analyze/Sections/Runs.antt =====
-- The longest rising runs that `_moved` counts, and the pairs it keeps by them.
use ha_dashboard_history.Base.{
  ℕ, zero, suc, ◌+◌, ◌-◌, ◌≤◌, ◌<◌, max, ◌≡◌, refl, ap, sym, ◌∙◌, inl, inr, ◌⊎◌, Bool, true, false,
  not, ◌&&◌, List, [], ◌∷◌, Option, none, some, arith, length, All, Ordered, Bool-cases, ltb, eqb,
  get_elem?,
}
use ha_dashboard_history.Analyze.Sections.{
  SectionPair, raise, longest_runs, max_of, is_above, keeps, chosen, left_out,
}

-- The second pair stands behind the first in the new state, too.
abbrev pub Rises : SectionPair → SectionPair → Type 0
Rises p q = p.new.index < q.new.index

abbrev Above : ℕ → SectionPair → Type 0
Above at p = at < p.new.index

raise-grows :
    (at best : ℕ) (pairs : List SectionPair) (longest : List ℕ) → best ≤ raise at best pairs longest
unfolding raise
raise-grows at best [] longest = omega arith
raise-grows at best (p ∷ pairs) [] = omega arith
raise-grows at best (p ∷ pairs) (l ∷ longest) =
    ground
      (arith, raise-grows at best pairs longest, raise-grows at (max best (suc l)) pairs longest)

raise_mono :
    (at b c : ℕ) (pairs : List SectionPair) (longest : List ℕ)
    → b ≤ c
    → raise at b pairs longest ≤ raise at c pairs longest
unfolding raise
raise_mono at b c [] longest h = h
raise_mono at b c (p ∷ pairs) [] h = h
raise_mono at b c (p ∷ pairs) (l ∷ longest) h = elim (Bool-cases (ltb at p.new.index)) [
  | inl e ↦ rw e (raise_mono at (max b (suc l)) (max c (suc l)) pairs longest (omega arith))
  | inr e ↦ rw e (raise_mono at b c pairs longest h)
]

-- No rising choice among the pairs above `at` is longer than what `raise` allows.
chosen-le-raise :
    (at : ℕ) (flags : List Bool) (pairs : List SectionPair)
    → All (Above at) (chosen flags pairs)
    → Ordered Rises (chosen flags pairs)
    → suc (length (chosen flags pairs)) ≤ raise at 1 pairs (longest_runs pairs)
unfolding chosen longest_runs raise
chosen-le-raise at [] pairs above o = raise-grows at 1 pairs (longest_runs pairs)
chosen-le-raise at (b ∷ flags) [] above o = omega arith
chosen-le-raise at (true ∷ flags) (p ∷ pairs) above o =
    let IH = chosen-le-raise p.new.index flags pairs o.0 o.1 in
    let l = raise p.new.index 1 pairs (longest_runs pairs) in
    let grown = raise-grows at (max 1 (suc l)) pairs (longest_runs pairs) in ground arith
chosen-le-raise at (false ∷ flags) (p ∷ pairs) above o =
    let IH = chosen-le-raise at flags pairs above o in
    let l = raise p.new.index 1 pairs (longest_runs pairs) in
    let grown = raise_mono at 1 (max 1 (suc l)) pairs (longest_runs pairs) (omega arith) in
    ground arith

pub chosen-le-max_of :
    (flags : List Bool) (pairs : List SectionPair)
    → Ordered Rises (chosen flags pairs)
    → length (chosen flags pairs) ≤ max_of (longest_runs pairs)
unfolding chosen longest_runs max_of
chosen-le-max_of [] pairs o = omega arith
chosen-le-max_of (b ∷ flags) [] o = omega arith
chosen-le-max_of (true ∷ flags) (p ∷ pairs) o =
    let h = chosen-le-raise p.new.index flags pairs o.0 o.1 in omega arith
chosen-le-max_of (false ∷ flags) (p ∷ pairs) o =
    let h = chosen-le-max_of flags pairs o in omega arith

-- Somewhere in the list starts a run of the length, above the last one kept.
abbrev Reaches : ℕ → Option ℕ → List SectionPair → List ℕ → Type 0
Reaches need last pairs longest =
    (k : ℕ) × (p : SectionPair) × (get_elem? pairs k ≡ some p)
    × (get_elem? longest k ≡ some need)
    × (is_above last p.new.index ≡ true)

behind :
    (need : ℕ) (last : Option ℕ) (p : SectionPair) (l : ℕ) (pairs : List SectionPair)
    (longest : List ℕ)
    → Reaches need last pairs longest
    → Reaches need last (p ∷ pairs) (l ∷ longest)
behind need last p l pairs longest (k, q, at, run, above) = (suc k, q, at, run, above)

-- What `raise` answers beyond its start is one more than a run that goes on above.
raise-Reaches :
    (at best : ℕ) (pairs : List SectionPair) (longest : List ℕ) (need : ℕ)
    → raise at best pairs longest ≡ suc need
    → best < suc need
    → Reaches need (some at) pairs longest
unfolding raise
raise-Reaches at best [] longest need e h = absurd (omega arith)
raise-Reaches at best (p ∷ pairs) [] need e h = absurd (omega arith)
raise-Reaches at best (p ∷ pairs) (l ∷ longest) need e h = elim (Bool-cases (ltb at p.new.index)) [
  | inl above ↦
      let now : raise at best (p ∷ pairs) (l ∷ longest)
          ≡ raise at (max best (suc l)) pairs longest =
        rw (above, raise) in
      let e' : raise at (max best (suc l)) pairs longest ≡ suc need = sym now ∙ e in
      elim (Bool-cases (ltb l need)) [
        | inl less ↦
            behind need (some at) p l pairs longest
              (raise-Reaches at (max best (suc l)) pairs longest need e' (ground arith))
        | inr enough ↦
            let grown = raise-grows at (max best (suc l)) pairs longest in
            let same : l ≡ need = ground arith in (zero, p, refl, ap some same, above)
      ]
  | inr below ↦
      let now : raise at best (p ∷ pairs) (l ∷ longest) ≡ raise at best pairs longest =
        rw (below, raise) in
      let e' : raise at best pairs longest ≡ suc need = sym now ∙ e in
      behind need (some at) p l pairs longest (raise-Reaches at best pairs longest need e' h)
]

max_of-Reaches :
    (pairs : List SectionPair) (need : ℕ)
    → max_of (longest_runs pairs) ≡ suc need
    → Reaches (suc need) none pairs (longest_runs pairs)
unfolding max_of longest_runs
max_of-Reaches [] need e = absurd (omega arith)
max_of-Reaches (p ∷ pairs) need e =
    elim (Bool-cases (ltb (raise p.new.index 1 pairs (longest_runs pairs)) (suc need))) [
      | inl less ↦ behind (suc need) none p _ pairs _ (max_of-Reaches pairs need (ground arith))
      | inr enough ↦ (zero, p, refl, ap some (ground arith), refl)
    ]

-- From a place that a run of the length starts at, that many are kept.
pub length-keeps :
    (need : ℕ) (last : Option ℕ) (pairs : List SectionPair)
    → (need ≡ 0) ⊎ Reaches need last pairs (longest_runs pairs)
    → length (chosen (keeps need last pairs (longest_runs pairs)) pairs) ≡ need
unfolding keeps longest_runs chosen
length-keeps need last [] (inl e) = sym e
length-keeps need last [] (inr (k, q, at, run, above)) = absurd (cc)
length-keeps need last (p ∷ pairs) h =
    elim (Bool-cases (
      not (eqb need 0)
      && (eqb (raise p.new.index 1 pairs (longest_runs pairs)) need
          && is_above last p.new.index))) [
            | inl keep ↦
                let IH =
                  length-keeps (need - 1) (some p.new.index) pairs
                    (next (ground arith) (ground arith)) in
                rw keep (ground arith)
            | inr skip ↦ rw skip (length-keeps need last pairs (later skip h))
          ]
  where
    next :
        raise p.new.index 1 pairs (longest_runs pairs) ≡ need
        → 0 < need
        → (need - 1 ≡ 0) ⊎ Reaches (need - 1) (some p.new.index) pairs (longest_runs pairs)
    next e pos = elim (Bool-cases (eqb (need - 1) 0)) [
      | inl last_one ↦ inl (ground arith)
      | inr more ↦ inr (
          raise-Reaches p.new.index 1 pairs (longest_runs pairs) (need - 1) (omega arith)
            (ground arith))
    ]

    later :
        not (eqb need 0)
            && (eqb (raise p.new.index 1 pairs (longest_runs pairs)) need
                && is_above last p.new.index)
          ≡ false
        → (need ≡ 0) ⊎ Reaches need last (p ∷ pairs) (longest_runs (p ∷ pairs))
        → (need ≡ 0) ⊎ Reaches need last pairs (longest_runs pairs)
    later skip (inl e) = inl e
    later skip (inr (suc k, q, at, run, above)) = inr (k, q, at, run, above)
    later skip (inr (zero, q, at, run, above)) =
        let grown = raise-grows p.new.index 1 pairs (longest_runs pairs) in
        let same : p ≡ q = cc in
        let l_eq : raise p.new.index 1 pairs (longest_runs pairs) ≡ need = cc in
        let above' : is_above last p.new.index ≡ true = rw same above in inl (ground arith)

keeps-Above :
    (at need last : ℕ) (pairs : List SectionPair) (longest : List ℕ)
    → at ≤ last
    → All (Above at) (chosen (keeps need (some last) pairs longest) pairs)
unfolding keeps chosen
keeps-Above at need last [] longest h = tt
keeps-Above at need last (p ∷ pairs) [] h = tt
keeps-Above at need last (p ∷ pairs) (l ∷ longest) h =
    elim (Bool-cases (not (eqb need 0) && (eqb l need && ltb last p.new.index))) [
      | inl keep ↦
          rw keep (ground arith, keeps-Above at (need - 1) p.new.index pairs longest (ground arith))
      | inr skip ↦ rw skip (keeps-Above at need last pairs longest h)
    ]

pub keeps-Rises :
    (need : ℕ) (last : Option ℕ) (pairs : List SectionPair) (longest : List ℕ)
    → Ordered Rises (chosen (keeps need last pairs longest) pairs)
unfolding keeps chosen
keeps-Rises need last [] longest = tt
keeps-Rises need last (p ∷ pairs) [] = tt
keeps-Rises need last (p ∷ pairs) (l ∷ longest) =
    elim (Bool-cases (not (eqb need 0) && (eqb l need && is_above last p.new.index))) [
      | inl keep ↦ rw keep (
        keeps-Above p.new.index (need - 1) p.new.index pairs longest (omega arith),
        keeps-Rises (need - 1) (some p.new.index) pairs longest,
      )
      | inr skip ↦ rw skip (keeps-Rises need last pairs longest)
    ]

pub length-chosen-left_out :
    {A : Type 0} (flags : List Bool) (xs : List A)
    → length (chosen flags xs) + length (left_out flags xs) ≡ length xs
unfolding chosen left_out
length-chosen-left_out [] xs = omega arith
length-chosen-left_out (b ∷ flags) [] = refl
length-chosen-left_out (true ∷ flags) (x ∷ xs) = omega (arith, length-chosen-left_out flags xs)
length-chosen-left_out (false ∷ flags) (x ∷ xs) = omega (arith, length-chosen-left_out flags xs)

pub reached :
    (need : ℕ) (pairs : List SectionPair)
    → max_of (longest_runs pairs) ≡ need
    → (need ≡ 0) ⊎ Reaches need none pairs (longest_runs pairs)
reached zero pairs e = inl refl
reached (suc need) pairs e = inr (max_of-Reaches pairs need e)
