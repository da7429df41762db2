-- ===== src/Store/Versions/Answered.antt =====
-- Where `retitle_version` answers: no unfinished `forget`, and an annotated version of the dashboard.
use ha_dashboard_history.Base.{◌≡◌, refl, ap, sym, ◌∙◌, true, false, Option, some, Text}
use ha_dashboard_history.Git.{Git, Object, TagObject, commit, tag, blob, tree}
use ha_dashboard_history.Records.{Version}
use ha_dashboard_history.Store.Types.{Store, done}
use ha_dashboard_history.Store.Tags.{version_from}
use ha_dashboard_history.Store.Versions.{with_words, rewritten, retitle_version, read_version}
use ha_dashboard_history.Store.Versions.Parts.{
  refuse_if_forget_pending-none, tag_at_locked_of, read_version-eq-done, held_of_target,
}

annotated-tag :
    (name : Text) (o : Object)
    → (version_from name o).annotated ≡ true
    → (t : TagObject) × (o ≡ tag t)
unfolding version_from
annotated-tag name (tag t) h = (t, refl)
annotated-tag name (commit c) h = absurd (cc)
annotated-tag name (blob sha text) h = absurd (cc)
annotated-tag name (tree sha) h = absurd (cc)

module _ {R : Type 0} ⦃git : Git R⦄ where
  rewritten-held :
      (repo : Option R) (before : R) (name : Text) (fresh : TagObject)
      → repo ≡ some before
      → rewritten repo name fresh
        ≡ done (git.put_tag name fresh before, version_from name (tag fresh))
  unfolding rewritten
  rewritten-held repo before name fresh h = ap (λ r. rewritten r name fresh) h

  pub retitle_version-answers :
      (key name title description : Text) (store : Store R) (old : Version)
      → store.checkpoint ≡ false
      → read_version key name store ≡ done old
      → old.annotated ≡ true
      → (v : Version) × ((retitle_version key name title description store).answer ≡ done v)
  unfolding retitle_version
  retitle_version-answers key name title description store old free was annotated =
      let (o, mine, found, is) = read_version-eq-done key name store was in
      let (t, is_tag) =
        annotated-tag name o (ap (λ (v : Version). v.annotated) (sym is) ∙ annotated) in
      let (repo, held, there) = held_of_target store name o found in
      let at = tag_at_locked_of store.repo key name (tag t) mine (found ∙ ap some is_tag) in
      (
        version_from name (tag (with_words t title description)),
        rw
            (
              refuse_if_forget_pending-none store free,
              at,
              rewritten-held store.repo repo name (with_words t title description) held,
            )
            refl,
      )
