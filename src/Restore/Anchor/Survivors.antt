-- ===== src/Restore/Anchor/Survivors.antt =====
-- Where the search of `_anchored_index` for the survivors stops.
use mathlib.Core.List.{append_assoc}
use ha_dashboard_history.Base.{
  ℕ, zero, suc, ◌+◌, ◌≡◌, refl, ap, sym, ◌∙◌, List, [], ◌∷◌, ◌++◌, Option, some, true, arith,
  length, Option-cases, Bool-cases, inl, inr,
}
use ha_dashboard_history.Value.{Value, py_eq}
use ha_dashboard_history.Restore.Types.{ok, ok_injective}
use ha_dashboard_history.Restore.Anchor.{seek, found_positions, place_after}

-- The wanted cards stand in the list, in their order; others may stand between them.
pub data InOrder : List Value → List Value → Type 0 where
  done : (cards : List Value) → InOrder [] cards
  here :
      {w c : Value} {ws cs : List Value}
      → py_eq c w ≡ true
      → InOrder ws cs
      → InOrder (w ∷ ws) (c ∷ cs)
  skip : {c : Value} {ws cs : List Value} → InOrder ws cs → InOrder ws (c ∷ cs)

InOrder-append_left :
    (pre : List Value) {ws cs : List Value} → InOrder ws cs → InOrder ws (pre ++ cs)
InOrder-append_left [] h = h
InOrder-append_left (c ∷ pre) h = skip (InOrder-append_left pre h)

-- Where `seek` found the wanted card.
record IsSought (wanted : Value) (position : ℕ) (cards : List Value) (at : ℕ) (rest : List Value)
    : Type 0 where
  before : List Value
  card : Value
  split : cards ≡ before ++ (card ∷ rest)
  at_eq : at ≡ position + length before
  equal : py_eq card wanted ≡ true

seek-IsSought :
    (wanted : Value) (position : ℕ) (cards : List Value) (at : ℕ) (rest : List Value)
    → seek wanted position cards ≡ some (at, rest)
    → IsSought wanted position cards at rest
unfolding seek
seek-IsSought wanted position [] at rest h = absurd (cc)
seek-IsSought wanted position (c ∷ cards) at rest h = elim (Bool-cases (py_eq c wanted)) [
  | inl hit ↦
      let now : seek wanted position (c ∷ cards) ≡ some (position, cards) = rw (hit, seek) in
      let e : ◌≡◌ {A = Option (ℕ × List Value)} (some (position, cards)) (some (at, rest)) =
        sym now ∙ h in
      let same : cards ≡ rest = cc in
      let there : position ≡ at = cc in
      record {
        before = [];
        card = c;
        split = ap (λ r. c ∷ r) same;
        at_eq = omega arith;
        equal = hit;
      }
  | inr miss ↦
      let now : seek wanted position (c ∷ cards) ≡ seek wanted (suc position) cards =
        rw (miss, seek) in
      let s = seek-IsSought wanted (suc position) cards at rest (sym now ∙ h) in
      let e = s.at_eq in
      record {
        before = c ∷ s.before;
        card = s.card;
        split = ap (λ r. c ∷ r) s.split;
        at_eq = omega arith;
        equal = s.equal;
      }
]

-- The two steps of `found_positions`.
found-cons :
    (position : ℕ) (cards : List Value) (w : Value) (ws : List Value) (found : List ℕ)
    → found_positions position cards (w ∷ ws) ≡ some found
    → (at : ℕ) × (rest : List Value) × (found' : List ℕ) × (seek w position cards ≡ some (at, rest))
      × (found_positions (suc at) rest ws ≡ some found')
      × (found ≡ at ∷ found')
unfolding found_positions
found-cons position cards w ws found h = elim (Option-cases (seek w position cards)) [
  | inl e ↦ absurd (ground arith)
  | inr ((at, rest), e) ↦ elim (Option-cases (found_positions (suc at) rest ws)) [
    | inl e' ↦ absurd (ground arith)
    | inr (found', e') ↦ (at, rest, found', e, e', ground arith)
  ]
]

found-InOrder :
    (position : ℕ) (cards ws : List Value) (found : List ℕ)
    → found_positions position cards ws ≡ some found
    → InOrder ws cards
found-InOrder position cards [] found h = done cards
found-InOrder position cards (w ∷ ws) found h =
    let (at, rest, found', e, e', _) = found-cons position cards w ws found h in
    let s = seek-IsSought w position cards at rest e in
    rw s.split
      (InOrder-append_left s.before (here s.equal (found-InOrder (suc at) rest ws found' e')))

-- The index divides the cards and the survivors alike: as many survivors as stood ahead of the
-- card stand in front of it, and the others behind, each in their order.
pub record IsBeside (position at : ℕ) (cards survivors : List Value) (before : ℕ) : Type 0 where
  pub ahead : List Value
  pub behind : List Value
  pub first : List Value
  pub rest : List Value
  pub cards_eq : cards ≡ ahead ++ behind
  pub at_eq : at ≡ position + length ahead
  pub survivors_eq : survivors ≡ first ++ rest
  pub before_eq : length first ≡ before
  pub first_ahead : InOrder first ahead
  pub rest_behind : InOrder rest behind

length-append-cons :
    (xs ys : List Value) (c : Value) → length (xs ++ (c ∷ ys)) ≡ suc (length xs + length ys)
length-append-cons [] ys c = omega arith
length-append-cons (x ∷ xs) ys c = omega (arith, length-append-cons xs ys c)

pub place-IsBeside :
    (position : ℕ) (cards ws : List Value) (before : ℕ) (found : List ℕ) (at : ℕ)
    → found_positions position cards ws ≡ some found
    → place_after before found ≡ ok at
    → IsBeside position at cards ws before
unfolding place_after
place-IsBeside position cards [] zero found at h p =
    let e : [] ≡ found = unfold found_positions in cc in absurd (cc (ap (place_after zero) e))
place-IsBeside position cards [] (suc before) found at h p =
    let e : [] ≡ found = unfold found_positions in cc in
    absurd (cc (ap (place_after (suc before)) e))
place-IsBeside position cards (w ∷ ws) zero found at h p =
    let (at₀, rest, found', e, e', f_eq) = found-cons position cards w ws found h in
    let s = seek-IsSought w position cards at₀ rest e in
    let same : at₀ ≡ at = ok_injective (ap (place_after zero) (sym f_eq) ∙ p) in
    let at_eq = s.at_eq in
    record {
      ahead = s.before;
      behind = s.card ∷ rest;
      first = [];
      rest = w ∷ ws;
      cards_eq = s.split;
      at_eq = omega arith;
      survivors_eq = refl;
      before_eq = refl;
      first_ahead = done s.before;
      rest_behind = here s.equal (found-InOrder (suc at₀) rest ws found' e');
    }
place-IsBeside position cards (w ∷ ws) (suc zero) found at h p =
    let (at₀, rest, found', e, e', f_eq) = found-cons position cards w ws found h in
    let s = seek-IsSought w position cards at₀ rest e in
    let same : suc at₀ ≡ at = ok_injective (ap (place_after 1) (sym f_eq) ∙ p) in
    let at_eq = s.at_eq in
    record {
      ahead = s.before ++ (s.card ∷ []);
      behind = rest;
      first = w ∷ [];
      rest = ws;
      cards_eq = s.split ∙ sym (append_assoc s.before (s.card ∷ []) rest);
      at_eq = omega (arith, length-append-cons s.before [] s.card);
      survivors_eq = refl;
      before_eq = refl;
      first_ahead = InOrder-append_left s.before (here s.equal (done []));
      rest_behind = found-InOrder (suc at₀) rest ws found' e';
    }
place-IsBeside position cards (w ∷ ws) (suc (suc before)) found at h p =
    let (at₀, rest, found', e, e', f_eq) = found-cons position cards w ws found h in
    let s = seek-IsSought w position cards at₀ rest e in
    let p' : place_after (suc before) found' ≡ ok at =
      ap (place_after (suc (suc before))) (sym f_eq) ∙ p in
    let b = place-IsBeside (suc at₀) rest ws (suc before) found' at e' p' in
    let at_eq = s.at_eq in
    let at_eq' = b.at_eq in
    record {
      ahead = s.before ++ (s.card ∷ b.ahead);
      behind = b.behind;
      first = w ∷ b.first;
      rest = b.rest;
      cards_eq =
          s.split
          ∙ ap (λ r. s.before ++ (s.card ∷ r)) b.cards_eq
          ∙ sym (append_assoc s.before (s.card ∷ b.ahead) b.behind);
      at_eq = omega (arith, length-append-cons s.before b.ahead s.card);
      survivors_eq = ap (λ r. w ∷ r) b.survivors_eq;
      before_eq = ap suc b.before_eq;
      first_ahead = InOrder-append_left s.before (here s.equal b.first_ahead);
      rest_behind = b.rest_behind;
    }
