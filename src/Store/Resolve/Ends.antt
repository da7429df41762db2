-- ===== src/Store/Resolve/Ends.antt =====
-- `_resolve` comes to an end, and ends at a commit.
use ha_dashboard_history.Base.{
  ℕ, zero, suc, ◌<◌, ◌≤◌, ◌≡◌, refl, ap, sym, ◌∙◌, inl, inr, Option, none, some, Text, strip,
  is_nil, arith, Bool-cases, Option-cases,
}
use ha_dashboard_history.Git.{Git, Object, Commit, TagObject, commit, tag, blob, tree}
use ha_dashboard_history.Store.Types.{Store}
use ha_dashboard_history.Store.Resolve.{peel, find_sha, commit_behind, resolve_in, resolve, flat}

flat-eq-some : (o : Option (Option Text)) (sha : Text) → flat o ≡ some sha → o ≡ some (some sha)
flat-eq-some none sha h = absurd (cc)
flat-eq-some (some a) sha h = ap some h

module _ {R : Type 0} ⦃git : Git R⦄ where
  peel-tag :
      (fuel : ℕ) (repo : R) (t : TagObject) (obj : Object)
      → git.object repo t.marked ≡ some obj
      → peel (suc fuel) repo (tag t) ≡ peel fuel repo obj
  unfolding peel
  peel-tag fuel repo t obj h = rw (h, peel) refl

  peel-dangling :
      (fuel : ℕ) (repo : R) (t : TagObject)
      → git.object repo t.marked ≡ none
      → peel (suc fuel) repo (tag t) ≡ some none
  unfolding peel
  peel-dangling fuel repo t h = rw (h, peel) refl

  -- What the loop answers where there is fuel for the tags that stand on each other.
  peel-Answers :
      (fuel : ℕ) (repo : R) (name : Text) (obj : Object)
      → git.object repo name ≡ some obj
      → git.depth repo name < fuel
      → (a : Option Text) × (peel fuel repo obj ≡ some a)
  unfolding peel
  peel-Answers zero repo name obj h less = absurd (omega arith)
  peel-Answers (suc fuel) repo name (commit c) h less = (some c.sha, refl)
  peel-Answers (suc fuel) repo name (blob sha text) h less = (none, refl)
  peel-Answers (suc fuel) repo name (tree sha) h less = (none, refl)
  peel-Answers (suc fuel) repo name (tag t) h less =
      elim (Option-cases (git.object repo t.marked)) [
        | inl e ↦ (none, peel-dangling fuel repo t e)
        | inr (obj, e) ↦
            let (a, answers) =
              peel-Answers fuel repo t.marked obj e
                (omega (arith, less, git.depth-marked repo name t h)) in
            (a, peel-tag fuel repo t obj e ∙ answers)
      ]

  peel-more :
      (fuel more : ℕ) (repo : R) (obj : Object) (a : Option Text)
      → fuel ≤ more
      → peel fuel repo obj ≡ some a
      → peel more repo obj ≡ some a
  unfolding peel
  peel-more zero more repo obj a le h = absurd (cc)
  peel-more (suc fuel) zero repo obj a le h = absurd (omega arith)
  peel-more (suc fuel) (suc more) repo (commit c) a le h = h
  peel-more (suc fuel) (suc more) repo (blob sha text) a le h = h
  peel-more (suc fuel) (suc more) repo (tree sha) a le h = h
  peel-more (suc fuel) (suc more) repo (tag t) a le h =
      elim (Option-cases (git.object repo t.marked)) [
        | inl e ↦ peel-dangling more repo t e ∙ (sym (peel-dangling fuel repo t e) ∙ h)
        | inr (obj, e) ↦
            peel-tag more repo t obj e
            ∙ peel-more fuel more repo obj a (omega arith) (sym (peel-tag fuel repo t obj e) ∙ h)
      ]

  -- The loop over the tags that stand on each other comes to an end: with any fuel above their
  -- number it answers what `_resolve` answers for the object.
  pub commit_behind-Answers :
      (repo : R) (sha : Text) (obj : Object) (fuel : ℕ)
      → git.object repo sha ≡ some obj
      → git.depth repo sha < fuel
      → peel fuel repo obj ≡ some (commit_behind repo sha)
  unfolding commit_behind
  commit_behind-Answers repo sha obj fuel h enough =
      let (a, answers) = peel-Answers (suc (git.depth repo sha)) repo sha obj h (omega arith) in
      let now : commit_behind repo sha ≡ a = rw (h, commit_behind) (ap flat answers) in
      rw now (peel-more (suc (git.depth repo sha)) fuel repo obj a (omega arith) answers)

  -- An answer of the loop is a commit that answers to its id.
  abbrev pub IsCommit : R → Text → Type 0
  IsCommit repo sha = (c : Commit) × (git.object repo sha ≡ some (commit c)) × (c.sha ≡ sha)

  peel-IsCommit :
      (fuel : ℕ) (repo : R) (name : Text) (obj : Object) (sha : Text)
      → git.object repo name ≡ some obj
      → peel fuel repo obj ≡ some (some sha)
      → IsCommit repo sha
  unfolding peel
  peel-IsCommit zero repo name obj sha h e = absurd (cc)
  peel-IsCommit (suc fuel) repo name (commit c) sha h e =
      let same : c.sha ≡ sha = cc in
      (c, ap (git.object repo) (sym same) ∙ git.object-id_of repo name (commit c) h, same)
  peel-IsCommit (suc fuel) repo name (blob s text) sha h e = absurd (cc)
  peel-IsCommit (suc fuel) repo name (tree s) sha h e = absurd (cc)
  peel-IsCommit (suc fuel) repo name (tag t) sha h e =
      elim (Option-cases (git.object repo t.marked)) [
        | inl dangling ↦
            let out : some none ≡ some (some sha) = sym (peel-dangling fuel repo t dangling) ∙ e in
            absurd (cc)
        | inr (obj, found) ↦
            peel-IsCommit fuel repo t.marked obj sha found
              (sym (peel-tag fuel repo t obj found) ∙ e)
      ]

  commit_behind-IsCommit :
      (repo : R) (sha found : Text) → commit_behind repo sha ≡ some found → IsCommit repo found
  unfolding commit_behind
  commit_behind-IsCommit repo sha found h = elim (Option-cases (git.object repo sha)) [
    | inl e ↦ let now : commit_behind repo sha ≡ none = rw (e, commit_behind) refl in absurd (cc)
    | inr (obj, e) ↦
        let now : commit_behind repo sha ≡ flat (peel (suc (git.depth repo sha)) repo obj) =
          rw (e, commit_behind) refl in
        peel-IsCommit (suc (git.depth repo sha)) repo sha obj found e
          (flat-eq-some _ found (sym now ∙ h))
  ]

  pub resolve_in-IsCommit :
      (repo : R) (revision found : Text)
      → resolve_in repo revision ≡ some found
      → IsCommit repo found
  unfolding resolve_in
  resolve_in-IsCommit repo revision found h = elim (Bool-cases (is_nil (strip revision))) [
    | inl e ↦ let now : resolve_in repo revision ≡ none = rw (e, resolve_in) refl in absurd (cc)
    | inr e ↦ elim (Option-cases (find_sha repo (strip revision))) [
      | inl e' ↦
          let now : resolve_in repo revision ≡ none = rw (e, e', resolve_in) refl in absurd (cc)
      | inr (sha, e') ↦
          let now : resolve_in repo revision ≡ commit_behind repo sha =
            rw (e, e', resolve_in) refl in
          commit_behind-IsCommit repo sha found (sym now ∙ h)
    ]
  ]

  -- Whatever `resolve` is handed, what it answers is the id of a commit that is there: never a blob,
  -- a tree or a tag.
  pub resolve-IsCommit :
      (store : Store R) (repo : R) (revision found : Text)
      → store.repo ≡ some repo
      → resolve store revision ≡ some found
      → IsCommit repo found
  unfolding resolve
  resolve-IsCommit store repo revision found there h =
      let now : resolve store revision ≡ resolve_in repo revision = rw (there, resolve) refl in
      resolve_in-IsCommit repo revision found (sym now ∙ h)
