-- ===== src/Store/Versions/Kept.antt =====
-- A new version takes no other one's place.
use ha_dashboard_history.Base.{
  ℕ, ◌≡◌, ◌≢◌, ap, sym, ◌∙◌, inl, inr, true, List, [], ◌∷◌, Option, some, Text, contains, list_eq,
  nat_eq,
}
use ha_dashboard_history.Git.{Git}
use ha_dashboard_history.Records.{Version}
use ha_dashboard_history.Store.Types.{Store, done, ensure, no_value}
use ha_dashboard_history.Store.Dict.Laws.{if_same, contains-cons_other}
use ha_dashboard_history.Store.Tags.{version_body}
use ha_dashboard_history.Store.Tags.Below.{IsFree}
use ha_dashboard_history.Store.Versions.{tag_target, create_version, read_version}
use ha_dashboard_history.Store.Versions.Parts.{
  held_of_target, read_version-eq-done, read_version_same, written-eq-raised,
}
use ha_dashboard_history.Store.Versions.Create.{create_version-WasTagged}
use ha_dashboard_history.Store.Versions.Refused.{ensure_id}
use ha_dashboard_history.Store.Versions.Fence.{Answer-cases}

-- A name among others is none that is free beside them.
not_free :
    (name old : Text) (existing : List Text)
    → IsFree name existing
    → contains old existing ≡ true
    → old ≢ name
unfolding contains
not_free name old [] free h = absurd (cc)
not_free name old (one ∷ existing) free h =
    if_same old one _ (λ e s. free.0 (inl (sym s ∙ e)))
      (λ d. not_free name old existing free.1 (sym (contains-cons_other old one existing d) ∙ h))

module _ {R : Type 0} ⦃git : Git R⦄ where
  read_version-ensure :
      (key old : Text) (store : Store R) (v : Version)
      → read_version key old store ≡ done v
      → ensure store ≡ store
  read_version-ensure key old store v h =
      let (o, mine, found, is) = read_version-eq-done key old store h in
      let (repo, held, there) = held_of_target store old o found in ensure_id store repo held

  -- Whatever `create_version` answers, a version that was there reads as before.
  pub create_version-keeps :
      (name title description : Text) (revision : Option Text) (now : ℕ) (key old : Text)
      (store : Store R) (v : Version)
      → read_version key old store ≡ done v
      → read_version key old (create_version name title description revision now store).after
        ≡ done v
  unfolding create_version
  create_version-keeps name title description revision now key old store v h =
      let as_is = read_version-ensure key old store v h in
      elim (Answer-cases (create_version name title description revision now store).answer) [
        | inl (s, e) ↦ ap (read_version key old) (written-eq-raised (ensure store) _ e ∙ as_is) ∙ h
        | inr (no_value, e) ↦
            let w = create_version-WasTagged name title description revision now store e in
            let (o, mine, found, is) = read_version-eq-done key old store h in
            let held : store.repo ≡ some w.before =
              ap (λ (t : Store R). t.repo) (sym as_is) ∙ w.held in
            let there : git.tag_at w.before old ≡ some o =
              ap (λ r. tag_target r old) (sym held) ∙ found in
            let apart : old ≢ name =
              not_free name old (git.tag_names w.before) w.free
                (git.tag_names-tag_at w.before old o there) in
            let kept : git.tag_at w.after old ≡ git.tag_at w.before old =
              git.tag_at-create_tag_other name (version_body title description) w.marked now
                w.before w.after old w.made apart in
            let after = record (ensure store) { repo = some w.after } in
            ap (read_version key old) w.is_after
            ∙ (read_version_same key old after store (kept ∙ ap (λ r. tag_target r old) (sym held))
                ∙ h)
      ]
