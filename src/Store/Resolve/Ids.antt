-- ===== src/Store/Resolve/Ids.antt =====
-- The id of a commit resolves to itself.
use ha_dashboard_history.Base.{
  ◌≡◌, refl, ap, sym, ◌∙◌, some, Text, strip, is_nil, false, List, codes, ◌++◌, [], ◌∷◌,
}
use ha_dashboard_history.Git.{Git, Object, Commit, commit, id_of}
use ha_dashboard_history.Store.Resolve.{
  or_else, by_prefix, first_known, find_sha, commit_behind, resolve_in,
}
use ha_dashboard_history.Store.Resolve.Ends.{IsCommit}

module _ {R : Type 0} ⦃git : Git R⦄ where
  first_known-head :
      (repo : R) (name : Text) (more : List Text) (o : Object)
      → git.object repo name ≡ some o
      → first_known repo (name ∷ more) ≡ some (id_of o)
  unfolding first_known
  first_known-head repo name more o h = rw (h, first_known) refl

  find_sha-id :
      (repo : R) (c : Commit)
      → git.object repo c.sha ≡ some (commit c)
      → find_sha repo c.sha ≡ some c.sha
  unfolding find_sha
  find_sha-id repo c h =
      ap (λ o. or_else o (by_prefix repo c.sha))
        (first_known-head repo c.sha
          ((codes "refs/tags/" ++ c.sha) ∷ (codes "refs/heads/" ++ c.sha) ∷ []) (commit c) h)

  commit_behind-id :
      (repo : R) (c : Commit)
      → git.object repo c.sha ≡ some (commit c)
      → commit_behind repo c.sha ≡ some c.sha
  unfolding commit_behind
  commit_behind-id repo c h = rw (h, commit_behind) refl

  resolve_in-sha :
      (repo : R) (c : Commit)
      → git.object repo c.sha ≡ some (commit c)
      → resolve_in repo c.sha ≡ some c.sha
  unfolding resolve_in
  resolve_in-sha repo c h =
      let (plain, named) = git.commit_id repo c.sha c h in
      let e : is_nil (strip c.sha) ≡ false = ap is_nil plain ∙ named in
      let found : find_sha repo (strip c.sha) ≡ some c.sha =
        ap (find_sha repo) plain ∙ find_sha-id repo c h in
      let now : resolve_in repo c.sha ≡ commit_behind repo c.sha = rw (e, found, resolve_in) refl in
      now ∙ commit_behind-id repo c h

  pub resolve_in-id :
      (repo : R) (sha : Text)
      → IsCommit repo sha
      → (resolve_in repo sha ≡ some sha) × (is_nil sha ≡ false)
  resolve_in-id repo sha (c, there, is) =
      let at : git.object repo c.sha ≡ some (commit c) = ap (git.object repo) is ∙ there in
      (
        ap (resolve_in repo) (sym is) ∙ (resolve_in-sha repo c at ∙ ap some is),
        ap is_nil (sym is) ∙ (git.commit_id repo c.sha c at).1,
      )
