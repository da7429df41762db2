-- ===== src/Store/Versions/Remove.antt =====
-- `remove_version`: the mark goes, the state stays.
use ha_dashboard_history.Base.{
  ◌≡◌, ◌≢◌, refl, ap, sym, ◌∙◌, inl, inr, true, false, Option, none, some, Text, Bool-cases,
  Option-cases,
}
use ha_dashboard_history.Git.{Git, Object, Commit, commit}
use ha_dashboard_history.Records.{Version}
use ha_dashboard_history.Store.Types.{
  Store, raised, done, ◌>>=◌, refuse_if_forget_pending, >>=-eq-done, unless-eq-done,
  version_unknown,
}
use ha_dashboard_history.Store.Tags.{version_from, owns}
use ha_dashboard_history.Store.Versions.{
  written, tag_target, object_in, tag_at_locked, dropped, remove_version, read_version,
}
use ha_dashboard_history.Store.Versions.Parts.{
  written-eq-done, refuse_if_forget_pending-none, tag_at_locked-eq-done, dropped-eq-done,
  read_version_same,
}

module _ {R : Type 0} ⦃git : Git R⦄ where
  pub record WasDropped (key name : Text) (store : Store R) (v : Version) : Type 0 where
    pub before : R
    pub target : Object
    pub mine : owns name key ≡ true
    pub held : store.repo ≡ some before
    pub found : tag_target store.repo name ≡ some target
    pub now :
        (remove_version key name store).after
        ≡ record store { repo = some (git.drop_tag name before) }
    pub answered : v ≡ version_from name target

  pub remove_version-WasDropped :
      (key name : Text) (store : Store R) {v : Version}
      → (remove_version key name store).answer ≡ done v
      → WasDropped key name store v
  unfolding remove_version
  remove_version-WasDropped key name store h =
      let (after, went, now) = written-eq-done store _ h in
      let (free, e) = unless-eq-done (refuse_if_forget_pending store) _ went in
      let (o, found, e) = >>=-eq-done (tag_at_locked store.repo key name) _ e in
      let (before, held, drop, answered) =
        dropped-eq-done store.repo name (version_from name o) e in
      let (mine, there) = tag_at_locked-eq-done store.repo key name found in
      record {
        before = before;
        target = o;
        mine = mine;
        held = held;
        found = there;
        now = now ∙ ap (λ (r : R). record store { repo = some r }) drop;
        answered = answered;
      }

  tag_at_locked-gone :
      (repo : Option R) (key name : Text)
      → owns name key ≡ true
      → tag_target repo name ≡ none
      → tag_at_locked repo key name ≡ raised (version_unknown name)
  unfolding tag_at_locked
  tag_at_locked-gone repo key name mine gone = rw (mine, gone) refl

  read_version-gone :
      (key name : Text) (store : Store R)
      → owns name key ≡ true
      → tag_target store.repo name ≡ none
      → read_version key name store ≡ raised (version_unknown name)
  unfolding read_version
  read_version-gone key name store mine gone =
      rw (tag_at_locked-gone store.repo key name mine gone) refl

  remove-answer :
      (repo : Option R) (key name : Text) (store : Store R)
      → store.repo ≡ repo
      → (written store (
          tag_at_locked repo key name >>= λ target.
          dropped repo name (version_from name target))).answer
        ≡ (tag_at_locked repo key name >>= λ target. done (version_from name target))
  unfolding tag_at_locked dropped
  remove-answer none key name store e = elim (Bool-cases (owns name key)) [
    | inl mine ↦ rw mine refl
    | inr other ↦ rw other refl
  ]
  remove-answer (some repo) key name store e = elim (Bool-cases (owns name key)) [
    | inl mine ↦ elim (Option-cases (git.tag_at repo name)) [
      | inl gone ↦ rw (mine, gone) refl
      | inr (o, there) ↦ rw (mine, there) refl
    ]
    | inr other ↦ rw other refl
  ]

  -- A removal answers, on every branch, what the preview of it reads, where no unfinished `forget`
  -- stands in the way.
  pub remove_version-eq-read_version :
      (key name : Text) (store : Store R)
      → store.checkpoint ≡ false
      → (remove_version key name store).answer ≡ read_version key name store
  unfolding remove_version read_version
  remove_version-eq-read_version key name store free =
      rw (refuse_if_forget_pending-none store free) (remove-answer store.repo key name store refl)

  -- What the removal of a version does.
  pub record IsRemoved (key name other_key other : Text) (c : Commit) (store : Store R)
      (v : Version) : Type 0 where
    answered : (remove_version key name store).answer ≡ done v
    gone :
        read_version key name (remove_version key name store).after ≡ raised (version_unknown name)
    untouched :
        read_version other_key other (remove_version key name store).after
        ≡ read_version other_key other store
    state : object_in (remove_version key name store).after c.sha ≡ some (commit c)

  -- Where no unfinished `forget` stands in the way, a version that reads is always removed: the
  -- answer is what was read, and there is no such version any more; another version reads as before,
  -- and a commit that was there is still there.
  pub remove_version-IsRemoved :
      (key name other_key other : Text) (c : Commit) (store : Store R) (v : Version)
      → store.checkpoint ≡ false
      → read_version key name store ≡ done v
      → other ≢ name
      → object_in store c.sha ≡ some (commit c)
      → IsRemoved key name other_key other c store v
  remove_version-IsRemoved key name other_key other c store v free was apart here =
      let h = remove_version-eq-read_version key name store free ∙ was in
      let w = remove_version-WasDropped key name store h in
      let there : git.object w.before c.sha ≡ some (commit c) =
        ap
          (λ (s : Option R). elim s as (λ x. Option Object) [
            | none ↦ none
            | some r ↦ git.object r c.sha
          ])
          (sym w.held)
        ∙ here in
      let after = record store { repo = some (git.drop_tag name w.before) } in
      record {
        answered = h;
        gone =
            rw w.now (read_version-gone key name after w.mine (git.tag_at-drop_tag name w.before));
        untouched = rw w.now (
            read_version_same other_key other after store (
              git.tag_at-drop_tag_other name w.before other apart
              ∙ ap (λ r. tag_target r other) (sym w.held)));
        state = rw w.now (git.object-drop_tag name w.before c there);
      }
