-- ===== src/Analyze/Positions/Trusted.antt =====
-- Where `_positions_lie` lets the positions pass, the same view stands at each of them.
use ha_dashboard_history.Base.{
  ℕ, ◌<◌, min, ◌≡◌, ◌≢◌, refl, ap, sym, subst, ◌∙◌, inl, inr, ◌⊎◌, Bool, true, false, ◌&&◌, List,
  [], ◌∷◌, Option, none, some, arith, length, codes, lookup, eqb, if◌then◌else◌, nat_eq, Bool-cases,
  Option-cases,
}
use ha_dashboard_history.Value.{Value, null, obj, Fields, get, get_or_null, or_null, py_eq, is_null}
use ha_dashboard_history.Restore.Types.{Result, ok, ◌>>=◌, >>=-eq-ok, ok_injective}
use ha_dashboard_history.Analyze.Views.{by_position}
use ha_dashboard_history.Analyze.Positions.{
  is_recognised, all_there, all_recognised, views_in, positions_differ, positions_lie,
}
use ha_dashboard_history.Analyze.Positions.Standing.{
  pathless_at, positions, lookup-skip, lookup-same, lookup-positions, by_position-eq,
}

-- Two views that are equal, or the first has a title, which is not null and is the title of the second.
abbrev pub SameView : Fields → Fields → Type 0
SameView view standing =
    (py_eq (obj view) (obj standing) ≡ true)
    ⊎ ((title : Value) × (get (codes "title") view ≡ some title)
        × (title ≢ null)
        × (py_eq title (get_or_null (codes "title") standing) ≡ true))

abbrev pub Alike : Option Fields → Option Fields → Type 0
Alike none none = Unit
Alike (some view) (some standing) = SameView view standing
Alike _ _ = ⊥

all_recognised_at :
    (m : ℕ) (here there : List (ℕ × Fields)) (view : Fields)
    → all_recognised here there ≡ true
    → lookup m here ≡ some view
    → (standing : Fields) × (lookup m there ≡ some standing) × (is_recognised view standing ≡ true)
unfolding all_recognised lookup
all_recognised_at m [] there view h e = absurd (cc)
all_recognised_at m ((n, w) ∷ here) there view h e = elim (Option-cases (lookup n there)) [
  | inl none_there ↦ absurd (ground arith)
  | inr (standing, at) ↦ elim (Bool-cases (eqb m n)) [
    | inl same ↦
        let m_n : m ≡ n = ground arith in
        let now : some w ≡ some view = sym (lookup-same m n w here same) ∙ e in
        let w_view : w ≡ view = cc in
        (
          standing,
          ap (λ k. lookup k there) m_n ∙ at,
          subst (λ u. is_recognised u standing ≡ true) w_view (ground arith),
        )
    | inr other ↦
        all_recognised_at m here there view (ground arith) (sym (lookup-skip m n w here other) ∙ e)
  ]
]

all_there_at :
    (m : ℕ) (here there : List (ℕ × Fields)) (view : Fields)
    → all_there here there ≡ true
    → lookup m here ≡ some view
    → (standing : Fields) × (lookup m there ≡ some standing)
unfolding all_there lookup
all_there_at m [] there view h e = absurd (cc)
all_there_at m ((n, w) ∷ here) there view h e = elim (Option-cases (lookup n there)) [
  | inl none_there ↦ absurd (ground arith)
  | inr (standing, at) ↦ elim (Bool-cases (eqb m n)) [
    | inl same ↦ let m_n : m ≡ n = ground arith in (standing, ap (λ k. lookup k there) m_n ∙ at)
    | inr other ↦
        all_there_at m here there view (ground arith) (sym (lookup-skip m n w here other) ∙ e)
  ]
]

title-SameView :
    (view standing : Fields) (o : Option Value)
    → get (codes "title") view ≡ o
    → is_null (or_null o) ≡ false
    → py_eq (or_null o) (get_or_null (codes "title") standing) ≡ true
    → SameView view standing
unfolding is_null
title-SameView view standing none e filled same = absurd (cc)
title-SameView view standing (some title) e filled same =
    inr (title, e, (λ n. let out : true ≡ false = ap is_null (sym n) ∙ filled in absurd (cc)), same)

is_recognised-SameView :
    (view standing : Fields) → is_recognised view standing ≡ true → SameView view standing
unfolding is_recognised get_or_null
is_recognised-SameView view standing h = elim (Bool-cases (py_eq (obj view) (obj standing))) [
  | inl e ↦ inl e
  | inr e ↦
      title-SameView view standing (get (codes "title") view) refl (ground arith) (ground arith)
]

-- What stands at one position in two lists of views that are recognised.
Alike-of :
    (here there : List (ℕ × Fields)) (m : ℕ)
    → positions_differ here there ≡ false
    → Alike (lookup m here) (lookup m there)
unfolding positions_differ
Alike-of here there m h = elim (Option-cases (lookup m here)) [
  | inr (view, e) ↦
      let (standing, at, known) = all_recognised_at m here there view (ground arith) e in
      subst (λ o. Alike o (lookup m there)) (sym e)
        (subst (Alike (some view)) (sym at) (is_recognised-SameView view standing known))
  | inl e ↦ elim (Option-cases (lookup m there)) [
    | inl e' ↦ subst (λ o. Alike o (lookup m there)) (sym e) (subst (Alike none) (sym e') tt)
    | inr (standing, e') ↦
        let (view, at) = all_there_at m there here standing (ground arith) e' in
        let out : none ≡ some view = sym e ∙ at in absurd (cc)
  ]
]

-- What `_positions_lie` does behind the test for one view in each state.
abbrev tested : Fields → Fields → Bool → List Value → List Value → Result Bool
tested one other b ours theirs =
    if b
    then ok false
    else by_position one (some (min (length ours) (length theirs))) >>= λ here.
        by_position other (some (min (length ours) (length theirs))) >>= λ there.
        ok (positions_differ here there)

abbrev counted : Fields → Fields → List Value → List Value → Result Bool
counted one other ours theirs =
    tested one other (eqb (length ours) (length theirs) && eqb (length theirs) 1) ours theirs

by_count :
    (one other : Fields) (ours theirs : List Value) (i : ℕ)
    → views_in one ≡ ok ours
    → views_in other ≡ ok theirs
    → i < min (length ours) (length theirs)
    → (c : Bool) → (eqb (length ours) (length theirs) && eqb (length theirs) 1) ≡ c
    → tested one other c ours theirs ≡ ok false
    → ((length ours ≡ 1) × (length theirs ≡ 1)) ⊎ Alike (pathless_at ours i) (pathless_at theirs i)
by_count one other ours theirs i a b less true e h = inl (ground arith, ground arith)
by_count one other ours theirs i a b less false e h =
    let both = min (length ours) (length theirs) in
    let (here, c, h₁) = >>=-eq-ok (by_position one (some both)) _ h in
    let (there, d, h₂) = >>=-eq-ok (by_position other (some both)) _ h₁ in
    let here_eq : here ≡ positions both 0 ours =
      ok_injective (sym c ∙ by_position-eq one ours both a) in
    let there_eq : there ≡ positions both 0 theirs =
      ok_injective (sym d ∙ by_position-eq other theirs both b) in
    let alike = Alike-of here there i (ok_injective h₂) in
    inr (
      subst (λ o. Alike o (pathless_at theirs i))
        (ap (lookup i) here_eq ∙ lookup-positions both i 0 i ours (omega arith) less)
        (subst (Alike (lookup i here))
          (ap (lookup i) there_eq ∙ lookup-positions both i 0 i theirs (omega arith) less) alike))

-- Where `_positions_lie` answers no, each state has one view; or at each position within the length
-- of the shorter one, either both states have a view without a path, and the two are equal or
-- share a title that is not null, or neither has.
pub positions_lie-Alike :
    (one other : Fields) (ours theirs : List Value) (i : ℕ)
    → views_in one ≡ ok ours
    → views_in other ≡ ok theirs
    → i < min (length ours) (length theirs)
    → positions_lie one other ≡ ok false
    → ((length ours ≡ 1) × (length theirs ≡ 1)) ⊎ Alike (pathless_at ours i) (pathless_at theirs i)
unfolding positions_lie
positions_lie-Alike one other ours theirs i a b less h =
    let (ours', a', h₁) = >>=-eq-ok (views_in one) _ h in
    let (theirs', b', h₂) = >>=-eq-ok (views_in other) _ h₁ in
    let ours_eq : ours' ≡ ours = ok_injective (sym a' ∙ a) in
    let theirs_eq : theirs' ≡ theirs = ok_injective (sym b' ∙ b) in
    by_count one other ours theirs i a b less
      (eqb (length ours) (length theirs) && eqb (length theirs) 1) refl
      (subst (λ t. counted one other ours t ≡ ok false) theirs_eq
        (subst (λ o. counted one other o theirs' ≡ ok false) ours_eq h₂))
