-- ===== src/Store/Index/Cursor.antt =====
-- What `_indexed_revisions` hands out behind a cursor.
use mathlib.Core.List.{append_assoc}
use ha_dashboard_history.Base.{
  ℕ, suc, ◌≡◌, refl, ap, sym, ◌∙◌, inl, inr, true, false, List, [], ◌∷◌, ◌++◌, map, some, Text,
  contains, lookup, length, ltb, list_eq, nat_eq, Option-cases, arith, lt→ltb,
}
use ha_dashboard_history.Git.{Entry}
use ha_dashboard_history.Store.Dict.{get_or}
use ha_dashboard_history.Store.Dict.Laws.{
  either, if_same, IsDistinct, lookup-cons_same, lookup-cons_other,
}
use ha_dashboard_history.Store.Index.{read_entry, built_index, older_than}
use ha_dashboard_history.Store.Index.Walked.{revisions_of, place_in}
use ha_dashboard_history.Store.Index.Joined.{
  place_in-append, revisions_of-append, read_entry-append,
}
use ha_dashboard_history.Store.Index.Extended.{built_index-order, built_index-by_key}
use ha_dashboard_history.Store.Index.Places.{
  shas, older_than-append, older_than-none, older_than_whole, place_in_bounds, placed, not_placed,
  All-map, All-contains_self, All-revisions_of, apart, apart_last, get_or-some, get_or-missing,
  length-map_read, not_ltb,
}

module _ (head : Text) (newer older : List Entry) (e : Entry) where
  abbrev order : List (Text × ℕ)
  order = (built_index head (newer ++ (e ∷ older))).order

  -- Where the order has a revision: behind the cursor, at it, or before it.
  order_lem :
      (r : Text)
      → lookup r order
        ≡ either
            (either
              (place_in r (suc (length newer)) (map read_entry older))
              (lookup r ((e.commit.sha, length newer) ∷ [])))
            (place_in r 0 (map read_entry newer))
  unfolding read_entry
  order_lem r =
      built_index-order r head (newer ++ (e ∷ older))
      ∙ (ap (place_in r 0) (read_entry-append newer (e ∷ older))
          ∙ place_in-append r 0 (length newer) (map read_entry newer) (map read_entry (e ∷ older))
              (length-map_read newer))

  is_older :
      (r : Text) → contains r (shas older) ≡ true → ltb (length newer) (get_or 0 r order) ≡ true
  is_older r h =
      let (q, at) = placed r (suc (length newer)) older h in
      let (from, to) = place_in_bounds r (suc (length newer)) q (map read_entry older) at in
      let found : lookup r order ≡ some q =
        order_lem r
        ∙ ap
            (λ o.
              either (either o (lookup r ((e.commit.sha, length newer) ∷ [])))
                (place_in r 0 (map read_entry newer)))
            at in
      ap (ltb (length newer)) (get_or-some r order q found) ∙ lt→ltb (length newer) q (omega arith)

  is_not_older :
      (r : Text) → contains r (shas older) ≡ false → ltb (length newer) (get_or 0 r order) ≡ false
  unfolding lookup
  is_not_older r h =
      let before = place_in r 0 (map read_entry newer) in
      let missing = not_placed r (suc (length newer)) older h in
      let found : lookup r order ≡ either (lookup r ((e.commit.sha, length newer) ∷ [])) before =
        order_lem r
        ∙ ap (λ o. either (either o (lookup r ((e.commit.sha, length newer) ∷ []))) before)
            missing in
      if_same r e.commit.sha _
        (λ s.
          let at : lookup r order ≡ some (length newer) =
            found
            ∙ ap (λ o. either o before) (lookup-cons_same r e.commit.sha (length newer) [] s) in
          ap (ltb (length newer)) (get_or-some r order (length newer) at)
          ∙ not_ltb (length newer) (length newer) (omega arith))
        (λ d.
          let at : lookup r order ≡ before =
            found
            ∙ ap (λ o. either o before) (lookup-cons_other r e.commit.sha (length newer) [] d) in
          elim (Option-cases before) [
            | inl gone ↦
                ap (ltb (length newer)) (get_or-missing r order (at ∙ gone))
                ∙ not_ltb (length newer) 0 (omega arith)
            | inr (q, there) ↦
                let (from, to) = place_in_bounds r 0 q (map read_entry newer) there in
                ap (ltb (length newer)) (get_or-some r order q (at ∙ there))
                ∙ not_ltb (length newer) q (omega (arith, length-map_read newer))
          ])

  pub cursor_place :
      IsDistinct (shas (newer ++ (e ∷ older))) → lookup e.commit.sha order ≡ some (length newer)
  cursor_place once =
      let missing =
        not_placed e.commit.sha (suc (length newer)) older (apart_last newer older e once) in
      order_lem e.commit.sha
      ∙ ap (λ o. either o (place_in e.commit.sha 0 (map read_entry newer)))
          (ap (λ o. either o (lookup e.commit.sha ((e.commit.sha, length newer) ∷ []))) missing
            ∙ lookup-cons_same e.commit.sha e.commit.sha (length newer) [] refl)

  -- What the filter of the index leaves of a dashboard's revisions.
  pub older_than-revisions_of :
      (k : Text)
      → IsDistinct (shas (newer ++ (e ∷ older)))
      → older_than
          (length newer)
          order
          (get_or [] k (built_index head (newer ++ (e ∷ older))).by_key)
        ≡ revisions_of k (map read_entry older)
  older_than-revisions_of k once =
      let split : newer ++ (e ∷ older) ≡ (newer ++ (e ∷ [])) ++ older =
        sym (append_assoc newer (e ∷ []) older) in
      let first = revisions_of k (map read_entry (newer ++ (e ∷ []))) in
      let rest = revisions_of k (map read_entry older) in
      let parts : get_or [] k (built_index head (newer ++ (e ∷ older))).by_key ≡ first ++ rest =
        built_index-by_key k head (newer ++ (e ∷ older))
        ∙ (ap (λ es. revisions_of k (map read_entry es)) split
            ∙ (ap (revisions_of k) (read_entry-append (newer ++ (e ∷ [])) older)
                ∙ revisions_of-append k (map read_entry (newer ++ (e ∷ [])))
                    (map read_entry older))) in
      let dropped : older_than (length newer) order first ≡ [] =
        older_than-none (length newer) order first (
          All-revisions_of (λ r. ltb (length newer) (get_or 0 r order) ≡ false) k
            (newer ++ (e ∷ []))
            (All-map (λ r. contains r (shas older) ≡ false) _ _ is_not_older
              (apart newer older e once))) in
      let kept : older_than (length newer) order rest ≡ rest =
        older_than_whole (length newer) order rest (
          All-revisions_of (λ r. ltb (length newer) (get_or 0 r order) ≡ true) k older
            (All-map (λ r. contains r (shas older) ≡ true) _ _ is_older
              (All-contains_self (shas older)))) in
      ap (older_than (length newer) order) parts
      ∙ (older_than-append (length newer) order first rest
          ∙ (ap (λ l. l ++ older_than (length newer) order rest) dropped ∙ kept))
