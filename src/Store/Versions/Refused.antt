-- ===== src/Store/Versions/Refused.antt =====
-- What an operation on versions leaves when it is refused.
use ha_dashboard_history.Base.{
  ℕ, ◌≡◌, refl, ap, sym, ◌∙◌, inl, inr, true, false, [], Option, some, Text, Option-cases, sort_by,
}
use ha_dashboard_history.Git.{Git}
use ha_dashboard_history.Store.Types.{Store, Sentence, raised, ensure, forget_unfinished}
use ha_dashboard_history.Store.Versions.{
  create_version, retitle_version, remove_version, list_versions, each_tag,
}
use ha_dashboard_history.Store.Versions.Parts.{written-eq-raised, refuse_if_forget_pending-some}

module _ {R : Type 0} ⦃git : Git R⦄ where
  pub ensure_id : (store : Store R) (repo : R) → store.repo ≡ some repo → ensure store ≡ store
  unfolding ensure
  ensure_id store repo h = rw h refl

  list_versions-init :
      (store : Store R) (key : Option Text)
      → store.repo ≡ some git.init
      → list_versions store key ≡ []
  unfolding list_versions each_tag sort_by
  list_versions-init store key h = rw (h, list_versions) (rw git.tag_names-init refl)

  list_versions-ensure :
      (store : Store R) (key : Option Text)
      → list_versions (ensure store) key ≡ list_versions store key
  unfolding list_versions ensure each_tag sort_by
  list_versions-ensure store key = elim (Option-cases store.repo) [
    | inl e ↦
        let empty : list_versions store key ≡ [] = rw (e, list_versions) refl in
        let fresh : ensure store ≡ record { repo = some git.init; checkpoint = false } =
          rw (e, ensure) refl in
        list_versions-init (ensure store) key (ap (λ (s : Store R). s.repo) fresh) ∙ sym empty
    | inr (repo, e) ↦ ap (λ s. list_versions s key) (ensure_id store repo e)
  ]

  -- A version that `create_version` refuses leaves the list of the versions as it was, of every
  -- dashboard, also where the repository had to be made first.
  pub create_version-refused :
      (name title description : Text) (revision : Option Text) (now : ℕ) (store : Store R)
      (s : Sentence) (key : Option Text)
      → (create_version name title description revision now store).answer ≡ raised s
      → list_versions (create_version name title description revision now store).after key
        ≡ list_versions store key
  unfolding create_version
  create_version-refused name title description revision now store s key h =
      ap (λ t. list_versions t key) (written-eq-raised (ensure store) _ h)
      ∙ list_versions-ensure store key

  -- While an unfinished `forget` has its checkpoint in the repository, each of the three operations
  -- that write a version is refused with that sentence, and leaves the store as it is.
  pub versions-forget_unfinished :
      (key name title description : Text) (revision : Option Text) (now : ℕ) (store : Store R)
      (repo : R)
      → store.repo ≡ some repo
      → store.checkpoint ≡ true
      → (create_version name title description revision now store
          ≡ record { after = store; answer = raised forget_unfinished })
        × (retitle_version key name title description store
            ≡ record { after = store; answer = raised forget_unfinished })
        × (remove_version key name store
            ≡ record { after = store; answer = raised forget_unfinished })
  unfolding create_version retitle_version remove_version
  versions-forget_unfinished key name title description revision now store repo there pending =
      let stop = refuse_if_forget_pending-some store pending in
      (rw (ensure_id store repo there, stop) refl, rw stop refl, rw stop refl)
