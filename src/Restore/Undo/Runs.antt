-- ===== src/Restore/Undo/Runs.antt =====
-- The removals and insertions of one card list, run on the whole configuration.
use ha_dashboard_history.Base.{
  ℕ, zero, suc, ◌≡◌, refl, ap, sym, ◌∙◌, inl, inr, false, List, [], ◌∷◌, some, All, Ordered,
  get_elem?, insert_at, set, Text, ◌==◌, list_eq, nat_eq, Option-cases,
}
use ha_dashboard_history.Base.ListLaws.{get_elem?-set_self, set-set_self}
use ha_dashboard_history.Value.{Value, arr, obj, Fields, get, list, put, to_list, of_list}
use ha_dashboard_history.Value.Laws.{to_list-of_list, get-put_self, put-put_self}
use ha_dashboard_history.Restore.Types.{
  Step, key, index, StepKind, UndoStep, Result, ok, >>=-eq-ok, ok_injective,
}
use ha_dashboard_history.Restore.Place.{
  find_view, cards_at, replace_at, views_of, put_views, path_key, views_key,
}
use ha_dashboard_history.Restore.Place.Laws.{
  cards_at_key, cards_at_index, replace_at_key, replace_at_index, cards_at-replace_at,
  replace_at-replace_at, replace_at-Rewritten,
}
use ha_dashboard_history.Restore.Place.Found.{find_view-Finds}
use ha_dashboard_history.Restore.Place.Views.{views_of-put_views, put_views-put_views}
use ha_dashboard_history.Restore.Undo.{
  edit_cards, remove_card, remove_item, insert_step, run_steps, highest_first, lowest_first,
}
use ha_dashboard_history.Restore.Undo.Inverse.{edit_cards_lem}
use ha_dashboard_history.Restore.Undo.Order.{
  remove_items, insert_items, kept_from, Apart, Expects, Carries, remove_items-highest_first,
  All-sort,
}
use ha_dashboard_history.Restore.Undo.Lowest.{insert_items-lowest_first}

set_twice : {A : Type 0} (xs : List A) (i : ℕ) (v w : A) → set (set xs i v) i w ≡ set xs i w
set_twice [] i v w = refl
set_twice (x ∷ xs) zero v w = refl
set_twice (x ∷ xs) (suc i) v w = ap (λ ys. x ∷ ys) (set_twice xs i v w)

-- Of two writes at one place, the second counts.
replace_at_twice :
    (location : List Step) (v : Value) (old new newer : List Value)
    → cards_at v location ≡ some old
    → replace_at (replace_at v location new) location newer ≡ replace_at v location newer
unfolding cards_at replace_at
replace_at_twice [] v old new newer h = refl
replace_at_twice (index i ∷ location) (arr xs) old new newer h =
    elim (Option-cases (get_elem? (to_list xs) i)) [
      | inl e ↦ absurd (cc (cards_at_index location xs i e))
      | inr (w, e) ↦
          let new_w = replace_at w location new in
          let written = set (to_list xs) i new_w in
          let same : to_list (of_list written) ≡ written = to_list-of_list written in
          let stands : get_elem? (to_list (of_list written)) i ≡ some new_w =
            ap (λ ys. get_elem? ys i) same ∙ get_elem?-set_self (to_list xs) i new_w w e in
          ap (λ u. replace_at u (index i ∷ location) newer) (replace_at_index location xs i new e)
          ∙ replace_at_index location (of_list written) i newer stands
          ∙ ap list (
              ap (λ u. set (to_list (of_list written)) i u)
                (replace_at_twice location w old new newer
                  (sym (cards_at_index location xs i e) ∙ h))
              ∙ ap (λ ys. set ys i (replace_at w location newer)) same
              ∙ set_twice (to_list xs) i new_w (replace_at w location newer))
          ∙ sym (replace_at_index location xs i newer e)
    ]
replace_at_twice (key k ∷ location) (obj fs) old new newer h = elim (Option-cases (get k fs)) [
  | inl e ↦ absurd (cc (cards_at_key location fs k e))
  | inr (w, e) ↦
      let new_w = replace_at w location new in
      ap (λ u. replace_at u (key k ∷ location) newer) (replace_at_key location fs k new e)
      ∙ replace_at_key location (put k new_w fs) k newer (get-put_self k new_w fs)
      ∙ ap (λ u. obj (put k u (put k new_w fs)))
          (replace_at_twice location w old new newer (sym (cards_at_key location fs k e) ∙ h))
      ∙ ap obj (put-put_self k new_w (replace_at w location newer) fs)
      ∙ sym (replace_at_key location fs k newer e)
]
replace_at_twice (_ ∷ location) v old new newer h = absurd (cc)

put_views_twice :
    (one other : List Value) (config : Fields)
    → put_views other (put_views one config) ≡ put_views other config
unfolding put_views
put_views_twice one other config = put-put_self views_key (list one) (list other) config

module _ (config : Fields) (path : Value) (position : ℕ) (k : Text) (location : List Step)
    (views : List Value) (n : ℕ) (view : Fields) (cards : List Value)
    (views_eq : views_of config ≡ ok views) (found : find_view views path position ≡ some (n, view))
    (other : (k == path_key) ≡ false)
    (there : cards_at (obj view) (key k ∷ location) ≡ some cards) where
  -- The configuration with another list of cards at the place.
  abbrev pub with_cards : List Value → Fields
  with_cards new = put_views (set views n (replace_at (obj view) (key k ∷ location) new)) config

  abbrev pub IsAt : UndoStep → Type 0
  IsAt s =
      (s.kind ≡ StepKind.card)
      × (s.view_path ≡ path)
      × (s.view_index ≡ position)
      × (s.location ≡ key k ∷ location)

  with_cards_same : with_cards cards ≡ config
  with_cards_same =
      let f = find_view-Finds path position views n view found in
      let same : replace_at (obj view) (key k ∷ location) cards ≡ obj view =
        sym (replace_at_twice (key k ∷ location) (obj view) cards cards cards there)
        ∙ replace_at-replace_at (key k ∷ location) (obj view) cards cards there in
      let in_place : set views n (obj view) ≡ views =
        sym (set_twice views n (obj view) (obj view))
        ∙ set-set_self views n (obj view) (obj view) f.stands in
      ap (λ v. put_views (set views n v) config) same
      ∙ ap (λ vs. put_views vs config) in_place
      ∙ sym (put_views_twice views views config)
      ∙ put_views-put_views views views config views_eq

  edit-with_cards :
      (change : List Value → Result (List Value)) (s : UndoStep) (now new : List Value)
      → IsAt s
      → change now ≡ ok new
      → edit_cards change (with_cards now) s ≡ ok (with_cards new)
  edit-with_cards change s now new (kind, p, i, l) changed =
      let f = find_view-Finds path position views n view found in
      let w = replace_at-Rewritten k location view cards now other there in
      let views' = set views n (obj w.view') in
      let now_eq : with_cards now ≡ put_views views' config =
        ap (λ v. put_views (set views n v) config) w.written in
      let stands : cards_at (obj w.view') (key k ∷ location) ≡ some now =
        ap (λ v. cards_at v (key k ∷ location)) (sym w.written)
        ∙ cards_at-replace_at (key k ∷ location) (obj view) cards now there in
      let written : replace_at (obj w.view') (key k ∷ location) new
          ≡ replace_at (obj view) (key k ∷ location) new =
        ap (λ v. replace_at v (key k ∷ location) new) (sym w.written)
        ∙ replace_at_twice (key k ∷ location) (obj view) cards now new there in
      edit_cards_lem change (with_cards now) s views' n w.view' now new
        (ap views_of now_eq ∙ views_of-put_views views' config)
        (rw p (rw i (f.again w.view' w.same_path))) (rw l stands) changed
      ∙ ap ok (
          ap (λ m. put_views (set views' n (replace_at (obj w.view') m new)) (with_cards now)) l
          ∙ ap (λ v. put_views (set views' n v) (with_cards now)) written
          ∙ ap (λ vs. put_views vs (with_cards now)) (set_twice views n (obj w.view') _)
          ∙ put_views_twice _ _ config)

  run-removals :
      (steps : List UndoStep) (now new : List Value)
      → All IsAt steps
      → remove_items steps now ≡ ok new
      → run_steps remove_card steps (with_cards now) ≡ ok (with_cards new)
  unfolding run_steps remove_items remove_card
  run-removals [] now new at h = ap (λ r. ok (with_cards r)) (ok_injective h)
  run-removals (s ∷ steps) now new at h =
      let (next, e, h') = >>=-eq-ok (remove_item now s) _ h in
      rw (edit-with_cards (λ cs. remove_item cs s) s now next at.0 e)
        (run-removals steps next new at.1 h')

  insert_step-with_cards :
      (s : UndoStep) (now : List Value)
      → IsAt s
      → insert_step (with_cards now) s ≡ ok (with_cards (insert_at s.index s.payload now))
  unfolding insert_step
  insert_step-with_cards s now at =
      let is_edit : insert_step (with_cards now) s
          ≡ edit_cards (λ cs. ok (insert_at s.index s.payload cs)) (with_cards now) s =
        rw (at.0, insert_step) in
      is_edit ∙ edit-with_cards (λ cs. ok (insert_at s.index s.payload cs)) s now _ at refl

  run-insertions :
      (steps : List UndoStep) (now : List Value)
      → All IsAt steps
      → run_steps insert_step steps (with_cards now) ≡ ok (with_cards (insert_items steps now))
  unfolding run_steps insert_items
  run-insertions [] now at = refl
  run-insertions (s ∷ steps) now at =
      rw (insert_step-with_cards s now at.0)
        (run-insertions steps (insert_at s.index s.payload now) at.1)

  -- Steps on the cards of one list, at different indices, each of which expects and carries the card that
  -- stands at its index. Run as removals, highest index first, all of them succeed; the list then lacks
  -- exactly their cards; and run as insertions, lowest index first, they give back exactly the
  -- configuration from before. The list hangs under a key, other than `path`, of a view that is found.
  pub run_steps-highest_first-lowest_first :
      (steps : List UndoStep)
      → All IsAt steps
      → Ordered Apart steps
      → All (Expects cards) steps
      → All (Carries cards) steps
      → (run_steps remove_card (highest_first steps) config
          ≡ ok (with_cards (kept_from 0 steps cards)))
        × (run_steps insert_step (lowest_first steps) (with_cards (kept_from 0 steps cards))
            ≡ ok config)
  run_steps-highest_first-lowest_first steps at apart expects carries = (
    ap (run_steps remove_card (highest_first steps)) (sym with_cards_same)
        ∙ run-removals (highest_first steps) cards (kept_from 0 steps cards)
            (unfold highest_first in All-sort _ IsAt steps at)
            (remove_items-highest_first steps cards apart expects),
    run-insertions (lowest_first steps) (kept_from 0 steps cards)
          (unfold lowest_first in All-sort _ IsAt steps at)
        ∙ ap (λ cs. ok (with_cards cs)) (insert_items-lowest_first steps cards apart carries)
        ∙ ap ok with_cards_same,
  )
