-- ===== src/Store/Versions/Parts.antt =====
-- What an operation on versions went through when it answered, and what reading a version reads.
use ha_dashboard_history.Base.{
  ◌≡◌, refl, ap, sym, ◌∙◌, inl, inr, true, false, Option, none, some, Text, Bool-cases,
}
use ha_dashboard_history.Git.{Git, Object, TagObject, commit, tag, blob, tree}
use ha_dashboard_history.Records.{Version}
use ha_dashboard_history.Store.Types.{
  Store, Sentence, Answer, raised, done, or_raise, refuse_if_forget_pending, or_raise-eq-done,
  version_of_another, version_unknown, forget_unfinished, >>=-eq-done,
}
use ha_dashboard_history.Store.Tags.{version_from, owns}
use ha_dashboard_history.Store.Versions.{
  written, tag_target, tag_at_locked, the_tag, rewritten, dropped, read_version,
}

done_injective : {A : Type 0} {a b : A} → done a ≡ done b → a ≡ b
done_injective h = cc

-- What was written, when an operation answers.
pub written-eq-done :
    {R A : Type 0} (store : Store R) (a : Answer (R × A)) {v : A}
    → (written store a).answer ≡ done v
    → (repo : R) × (a ≡ done (repo, v))
      × ((written store a).after ≡ record store { repo = some repo })
written-eq-done store (raised s) h = absurd (cc)
written-eq-done store (done (repo, w)) h =
    let e : w ≡ _ = done_injective h in (repo, ap (λ x. done (repo, x)) e, refl)

-- A refusal leaves the store that the operation was handed.
pub written-eq-raised :
    {R A : Type 0} (store : Store R) (a : Answer (R × A)) {s : Sentence}
    → (written store a).answer ≡ raised s
    → (written store a).after ≡ store
written-eq-raised store (raised s) h = refl
written-eq-raised store (done (repo, w)) h = absurd (cc)

pub refuse_if_forget_pending-none :
    {R : Type 0} (store : Store R)
    → store.checkpoint ≡ false
    → refuse_if_forget_pending store ≡ none
unfolding refuse_if_forget_pending
refuse_if_forget_pending-none store h =
    ap (λ b. elim b as (λ x. Option Sentence) [ true ↦ some forget_unfinished | false ↦ none ]) h

pub refuse_if_forget_pending-some :
    {R : Type 0} (store : Store R)
    → store.checkpoint ≡ true
    → refuse_if_forget_pending store ≡ some forget_unfinished
unfolding refuse_if_forget_pending
refuse_if_forget_pending-some store h =
    ap (λ b. elim b as (λ x. Option Sentence) [ true ↦ some forget_unfinished | false ↦ none ]) h

pub the_tag-eq-done :
    (name : Text) (o : Object) {t : TagObject} → the_tag name o ≡ done t → o ≡ tag t
the_tag-eq-done name (tag t) h = ap tag (done_injective h)
the_tag-eq-done name (commit c) h = absurd (cc)
the_tag-eq-done name (blob s text) h = absurd (cc)
the_tag-eq-done name (tree s) h = absurd (cc)

module _ {R : Type 0} ⦃git : Git R⦄ where
  pub tag_at_locked-eq-done :
      (repo : Option R) (key name : Text) {o : Object}
      → tag_at_locked repo key name ≡ done o
      → (owns name key ≡ true) × (tag_target repo name ≡ some o)
  unfolding tag_at_locked
  tag_at_locked-eq-done repo key name h = elim (Bool-cases (owns name key)) [
    | inl e ↦
        let now : tag_at_locked repo key name
            ≡ or_raise (version_unknown name) (tag_target repo name) =
          rw (e, tag_at_locked) refl in
        (e, or_raise-eq-done (version_unknown name) (tag_target repo name) (sym now ∙ h))
    | inr e ↦
        let now : tag_at_locked repo key name ≡ raised (version_of_another key name) =
          rw (e, tag_at_locked) refl in
        absurd (cc)
  ]

  pub tag_at_locked_of :
      (repo : Option R) (key name : Text) (o : Object)
      → owns name key ≡ true
      → tag_target repo name ≡ some o
      → tag_at_locked repo key name ≡ done o
  unfolding tag_at_locked
  tag_at_locked_of repo key name o mine there = rw (mine, there) refl

  -- The ref and the object that a successful reading of a version saw.
  pub read_version-eq-done :
      (key name : Text) (store : Store R) {v : Version}
      → read_version key name store ≡ done v
      → (o : Object) × (owns name key ≡ true)
        × (tag_target store.repo name ≡ some o)
        × (v ≡ version_from name o)
  unfolding read_version
  read_version-eq-done key name store h =
      let (o, found, e) = >>=-eq-done (tag_at_locked store.repo key name) _ h in
      let (mine, there) = tag_at_locked-eq-done store.repo key name found in
      (o, mine, there, sym (done_injective e))

  pub read_version_of :
      (key name : Text) (store : Store R) (o : Object)
      → owns name key ≡ true
      → tag_target store.repo name ≡ some o
      → read_version key name store ≡ done (version_from name o)
  unfolding read_version
  read_version_of key name store o mine there =
      rw (tag_at_locked_of store.repo key name o mine there) refl

  -- Two stores that hold the same at a name read the same there.
  pub read_version_same :
      (key name : Text) (one other : Store R)
      → tag_target one.repo name ≡ tag_target other.repo name
      → read_version key name one ≡ read_version key name other
  unfolding read_version tag_at_locked
  read_version_same key name one other h = rw h refl

  pub rewritten-eq-done :
      (repo : Option R) (name : Text) (fresh : TagObject) {after : R} {v : Version}
      → rewritten repo name fresh ≡ done (after, v)
      → (before : R) × (repo ≡ some before)
        × (after ≡ git.put_tag name fresh before)
        × (v ≡ version_from name (tag fresh))
  unfolding rewritten
  rewritten-eq-done none name fresh h = absurd (cc)
  rewritten-eq-done (some before) name fresh h =
      let e = done_injective h in (before, refl, sym (ap (λ p. p.0) e), sym (ap (λ p. p.1) e))

  pub dropped-eq-done :
      (repo : Option R) (name : Text) (version : Version) {after : R} {v : Version}
      → dropped repo name version ≡ done (after, v)
      → (before : R) × (repo ≡ some before) × (after ≡ git.drop_tag name before) × (v ≡ version)
  unfolding dropped
  dropped-eq-done none name version h = absurd (cc)
  dropped-eq-done (some before) name version h =
      let e = done_injective h in (before, refl, sym (ap (λ p. p.0) e), sym (ap (λ p. p.1) e))

  -- A version that is there stands in a repository.
  pub held_of_target :
      (store : Store R) (name : Text) (o : Object)
      → tag_target store.repo name ≡ some o
      → (repo : R) × (store.repo ≡ some repo) × (git.tag_at repo name ≡ some o)
  held_of_target store name o h = by_repo store.repo refl h
    where
      by_repo :
          (r : Option R)
          → store.repo ≡ r
          → tag_target r name ≡ some o
          → (repo : R) × (store.repo ≡ some repo) × (git.tag_at repo name ≡ some o)
      by_repo none e h = absurd (cc)
      by_repo (some repo) e h = (repo, e, h)
