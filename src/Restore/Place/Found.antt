-- ===== src/Restore/Place/Found.antt =====
-- A view that was found is found again after a change that keeps its path.
use ha_dashboard_history.Base.{
  ℕ, zero, suc, ◌+◌, ◌≡◌, refl, ap, sym, ◌∙◌, List, [], ◌∷◌, Option, none, some, true, arith,
  get_elem?, set, Bool-cases, inl, inr, if◌then◌else◌,
}
use ha_dashboard_history.Base.ListLaws.{get_elem?-set_self}
use ha_dashboard_history.Value.{Value, null, obj, Fields, get_or_null, truthy, py_eq, is_null}
use ha_dashboard_history.Restore.Place.{find_by_path, find_view, view_paths, path_key, at_index}

-- The view stands at an index of the list, and one with the same path in its place is found.
pub record IsFound (path : Value) (n m : ℕ) (views : List Value) (view : Fields) : Type 0 where
  pub offset : ℕ
  pub index_eq : m ≡ n + offset
  pub stands : get_elem? views offset ≡ some (obj view)
  pub again :
      (view' : Fields)
      → get_or_null path_key view' ≡ get_or_null path_key view
      → find_by_path path n (set views offset (obj view')) ≡ some (m, view')

skip-IsFound :
    (path : Value) (n m : ℕ) (v : Value) (views : List Value) (view : Fields)
    → ((ws : List Value) → find_by_path path n (v ∷ ws) ≡ find_by_path path (suc n) ws)
    → IsFound path (suc n) m views view
    → IsFound path n m (v ∷ views) view
skip-IsFound path n m v views view skip found = record {
  offset = suc found.offset;
  index_eq = let e = found.index_eq in omega arith;
  stands = found.stands;
  again = λ view' same. skip (set views found.offset (obj view')) ∙ found.again view' same;
}

find_by_path-IsFound :
    (path : Value) (n : ℕ) (views : List Value) (m : ℕ) (view : Fields)
    → find_by_path path n views ≡ some (m, view)
    → IsFound path n m views view
unfolding find_by_path
find_by_path-IsFound path n [] m view h = absurd (cc)
find_by_path-IsFound path n (obj v ∷ views) m view h =
    elim (Bool-cases (py_eq (get_or_null path_key v) path)) [
      | inl hit ↦
          let e : ◌≡◌ {A = Option (ℕ × Fields)} (some (n, v)) (some (m, view)) =
            let now : find_by_path path n (obj v ∷ views) ≡ some (n, v) = rw (hit, find_by_path) in
            sym now ∙ h in
          let same : v ≡ view = cc in
          let at : m ≡ n = cc in
          record {
            offset = zero;
            index_eq = omega arith;
            stands = cc;
            again = λ view' kept.
                let hit' : py_eq (get_or_null path_key view') path ≡ true =
                  ap (λ p. py_eq p path) (kept ∙ ap (get_or_null path_key) (sym same)) ∙ hit in
                let now : find_by_path path n (obj view' ∷ views) ≡ some (n, view') =
                  rw (hit', find_by_path) in
                now ∙ ap (λ k. some (k, view')) (sym at);
          }
      | inr miss ↦
          let skip : (ws : List Value)
              → find_by_path path n (obj v ∷ ws) ≡ find_by_path path (suc n) ws =
            λ ws. rw (miss, find_by_path) in
          skip-IsFound path n m (obj v) views view skip
            (find_by_path-IsFound path (suc n) views m view (sym (skip views) ∙ h))
    ]
find_by_path-IsFound path n (v ∷ views) m view h =
    skip-IsFound path n m v views view (λ ws. refl)
      (find_by_path-IsFound path (suc n) views m view h)

-- The same for both ways to find a view, and the view that was found stands at its index.
pub record Finds (path : Value) (position : ℕ) (views : List Value) (n : ℕ) (view : Fields)
    : Type 0 where
  pub stands : get_elem? views n ≡ some (obj view)
  pub again :
      (view' : Fields)
      → get_or_null path_key view' ≡ get_or_null path_key view
      → find_view (set views n (obj view')) path position ≡ some (n, view')

at_index-Finds :
    (position : ℕ) (views : List Value) (n : ℕ) (view : Fields) (o : Option Value)
    → get_elem? views position ≡ o
    → at_index position o ≡ some (n, view)
    → (n ≡ position) × (get_elem? views position ≡ some (obj view))
at_index-Finds position views n view (some (obj v)) e h = (cc, cc)
at_index-Finds position views n view none e h = absurd (cc)
at_index-Finds position views n view (some v) e h = absurd (cc)

pub find_view-Finds :
    (path : Value) (position : ℕ) (views : List Value) (n : ℕ) (view : Fields)
    → find_view views path position ≡ some (n, view)
    → Finds path position views n view
unfolding find_view is_null
find_view-Finds null position views n view h =
    let (at, there) = at_index-Finds position views n view _ refl h in
    let stands : get_elem? views n ≡ some (obj view) = ap (get_elem? views) at ∙ there in
    record {
      stands = stands;
      again = λ view' kept.
          ap (λ k. at_index position (get_elem? (set views n (obj view')) k)) (sym at)
          ∙ ap (at_index position) (get_elem?-set_self views n (obj view') (obj view) stands)
          ∙ ap (λ k. some (k, view')) (sym at);
    }
find_view-Finds path position views n view h =
    let found = find_by_path-IsFound path 0 views n view h in
    let at : n ≡ found.offset = let e = found.index_eq in omega arith in
    record {
      stands = ap (get_elem? views) at ∙ found.stands;
      again = λ view' kept.
          ap (λ k. find_by_path path 0 (set views k (obj view'))) at ∙ found.again view' kept;
    }

-- The paths of the views are what they were.
pub view_paths-set :
    (views : List Value) (n : ℕ) (view view' : Fields)
    → get_elem? views n ≡ some (obj view)
    → get_or_null path_key view' ≡ get_or_null path_key view
    → view_paths (set views n (obj view')) ≡ view_paths views
unfolding view_paths
view_paths-set [] n view view' h kept = refl
view_paths-set (v ∷ views) zero view view' h kept =
    let same : obj view ≡ v = cc in
    ap (λ p. if truthy p then p ∷ view_paths views else view_paths views) kept
    ∙ ap (λ w. view_paths (w ∷ views)) same
view_paths-set (obj v ∷ views) (suc n) view view' h kept =
    ap (λ ps. if truthy (get_or_null path_key v) then get_or_null path_key v ∷ ps else ps)
      (view_paths-set views n view view' h kept)
view_paths-set (v ∷ views) (suc n) view view' h kept = view_paths-set views n view view' h kept
