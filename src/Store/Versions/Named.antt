-- ===== src/Store/Versions/Named.antt =====
-- A version's name is a revision: `resolve` finds the commit behind it.
use ha_dashboard_history.Base.{
  suc, ◌≡◌, refl, ap, sym, ◌∙◌, false, List, [], ◌∷◌, ◌++◌, Option, none, some, Text, ℕ, codes,
  strip, is_nil, arith,
}
use ha_dashboard_history.Git.{Git, Object, Commit, TagObject, commit, tag, id_of}
use ha_dashboard_history.Store.Types.{Store, done, no_value, ensure}
use ha_dashboard_history.Store.Resolve.{
  resolve, resolve_in, find_sha, first_known, commit_behind, peel, or_else, by_prefix,
}
use ha_dashboard_history.Store.Resolve.Ends.{resolve_in-IsCommit, commit_behind-Answers}
use ha_dashboard_history.Store.Tags.{or_head, version_body}
use ha_dashboard_history.Store.Versions.{object_in, create_version}
use ha_dashboard_history.Store.Versions.Create.{create_version-WasTagged, resolve_of}

some_injective : {A : Type 0} {a b : A} → some a ≡ some b → a ≡ b
some_injective h = cc

module _ {R : Type 0} ⦃git : Git R⦄ where
  first_known-tag :
      (repo : R) (name ref : Text) (names : List Text) (o : Object)
      → git.object repo name ≡ none
      → git.object repo ref ≡ some o
      → first_known repo (name ∷ ref ∷ names) ≡ some (id_of o)
  unfolding first_known
  first_known-tag repo name ref names o unknown known = rw (unknown, known, first_known) refl

  find_sha-tag :
      (repo : R) (name : Text) (o : Object)
      → git.object repo name ≡ none
      → git.tag_at repo name ≡ some o
      → find_sha repo name ≡ some (id_of o)
  unfolding find_sha
  find_sha-tag repo name o unknown there =
      let as_ref : git.object repo (codes "refs/tags/" ++ name) ≡ some o =
        git.object-tag_at repo name ∙ there in
      ap (λ found. or_else found (by_prefix repo name))
        (first_known-tag repo name (codes "refs/tags/" ++ name) ((codes "refs/heads/" ++ name) ∷ [])
          o unknown as_ref)

  commit_behind-tag :
      (repo : R) (sha : Text) (t : TagObject) (c : Commit)
      → git.object repo sha ≡ some (tag t)
      → git.object repo t.marked ≡ some (commit c)
      → commit_behind repo sha ≡ some c.sha
  unfolding peel
  commit_behind-tag repo sha t c there below =
      let two_steps : peel (suc (suc (git.depth repo sha))) repo (tag t) ≡ some (some c.sha) =
        rw (below, peel) refl in
      let ends =
        commit_behind-Answers repo sha (tag t) (suc (suc (git.depth repo sha))) there
          (omega arith) in
      some_injective (sym ends ∙ two_steps)

  resolve_in-found :
      (repo : R) (revision sha : Text)
      → is_nil (strip revision) ≡ false
      → find_sha repo (strip revision) ≡ some sha
      → resolve_in repo revision ≡ commit_behind repo sha
  unfolding resolve_in
  resolve_in-found repo revision sha full found = rw (full, found, resolve_in) refl

  resolve_in-tag :
      (repo : R) (name : Text) (t : TagObject) (c : Commit)
      → strip name ≡ name
      → is_nil name ≡ false
      → git.object repo name ≡ none
      → git.tag_at repo name ≡ some (tag t)
      → git.object repo t.marked ≡ some (commit c)
      → resolve_in repo name ≡ some c.sha
  resolve_in-tag repo name t c trim full unknown there below =
      let by_id : git.object repo t.sha ≡ some (tag t) =
        git.object-id_of repo (codes "refs/tags/" ++ name) (tag t)
          (git.object-tag_at repo name ∙ there) in
      let found : find_sha repo (strip name) ≡ some t.sha =
        ap (find_sha repo) trim ∙ find_sha-tag repo name (tag t) unknown there in
      resolve_in-found repo name t.sha (ap (λ s. is_nil s) trim ∙ full) found
      ∙ commit_behind-tag repo t.sha t c by_id below

  -- Once a version is made, its name, if it is no other name of the repository and has no spaces
  -- around it, resolves to the commit that the version was asked for.
  pub create_version-resolve :
      (name title description : Text) (revision : Option Text) (now : ℕ) (store : Store R)
      → (create_version name title description revision now store).answer ≡ done no_value
      → strip name ≡ name
      → is_nil name ≡ false
      → object_in (create_version name title description revision now store).after name ≡ none
      → resolve (create_version name title description revision now store).after name
        ≡ resolve (ensure store) (or_head revision)
  create_version-resolve name title description revision now store h trim full unknown =
      let w = create_version-WasTagged name title description revision now store h in
      let (t, end, there, message, blank, marked, time) =
        git.tag_at-create_tag name (version_body title description) w.marked now w.before w.after
          w.made in
      let (c, known, same) = resolve_in-IsCommit w.before (or_head revision) w.marked w.found in
      let kept : git.object w.after c.sha ≡ some (commit c) =
        git.object-create_tag name (version_body title description) w.marked now w.before w.after c
          w.made (ap (git.object w.before) same ∙ known) in
      let below : git.object w.after t.marked ≡ some (commit c) =
        ap (git.object w.after) (marked ∙ sym same) ∙ kept in
      let after = record (ensure store) { repo = some w.after } in
      let free : git.object w.after name ≡ none =
        sym (ap (λ s. object_in s name) w.is_after) ∙ unknown in
      ap (λ s. resolve s name) w.is_after
      ∙ (resolve_of after w.after name refl
          ∙ (resolve_in-tag w.after name t c trim full free there below
              ∙ (ap some same
                  ∙ sym (resolve_of (ensure store) w.before (or_head revision) w.held ∙ w.found))))
