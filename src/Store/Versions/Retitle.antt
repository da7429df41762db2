-- ===== src/Store/Versions/Retitle.antt =====
-- `retitle_version`: new words for a version, which keeps its state, its time and its marker.
use mathlib.Core.List.{append-nil}
use ha_dashboard_history.Base.{
  ◌≡◌, ◌≢◌, refl, ap, sym, ◌∙◌, inl, inr, true, false, [], ◌∷◌, ◌++◌, Option, some, Text, strip,
  lstrip, rstrip, is_space, Bool-cases, if◌then◌else◌, rstrip_idem, rstrip-append_blank,
  rstrip-append_cons,
}
use ha_dashboard_history.Git.{Git, TagObject, tag}
use ha_dashboard_history.Records.{Version}
use ha_dashboard_history.Versions.Description.{
  automatic, automatic_description, read_description, read_description-automatic_description,
}
use ha_dashboard_history.Store.Types.{
  Store, done, refuse_if_forget_pending, >>=-eq-done, unless-eq-done,
}
use ha_dashboard_history.Store.Tags.{
  version_from, owns, version_body, version_words, restored_description,
}
use ha_dashboard_history.Store.Tags.Words.{no_blank_line, version_words-version_body}
use ha_dashboard_history.Store.Versions.{
  tag_target, tag_at_locked, the_tag, with_words, retitle_version, read_version,
}
use ha_dashboard_history.Store.Versions.Answered.{retitle_version-answers}
use ha_dashboard_history.Store.Versions.Parts.{
  written-eq-done, tag_at_locked-eq-done, the_tag-eq-done, rewritten-eq-done, read_version-eq-done,
  read_version_of, read_version_same,
}

-- A text that begins as the marker begins has no spaces in front.
lstrip-automatic : (r : Text) → lstrip (automatic ++ r) ≡ automatic ++ r
unfolding lstrip is_space
lstrip-automatic r = refl

rstrip-automatic : rstrip automatic ≡ automatic
unfolding rstrip is_space
rstrip-automatic = refl

strip-marked :
    (t r : Text) → rstrip t ≡ r → strip (rstrip (automatic ++ t)) ≡ rstrip (automatic ++ t)
unfolding strip
strip-marked t [] h =
    let short : rstrip (automatic ++ t) ≡ automatic =
      rstrip-append_blank automatic t h ∙ rstrip-automatic in
    rw (short, rstrip-automatic) (lstrip-automatic [])
strip-marked t (c ∷ r) h =
    let long : rstrip (automatic ++ t) ≡ automatic ++ (c ∷ r) =
      rstrip-append_cons automatic t c r h in
    rw (rstrip_idem (automatic ++ t), long) (lstrip-automatic (c ∷ r))

strip-automatic_description :
    (text : Text) → strip (automatic_description text) ≡ automatic_description text
unfolding automatic_description
strip-automatic_description [] =
    let e : strip automatic ≡ automatic = unfold strip lstrip rstrip is_space in refl in e
strip-automatic_description (c ∷ s) = strip-marked (b'\n' ∷ c ∷ s) _ refl

module _ {R : Type 0} ⦃git : Git R⦄ where
  -- What a successful renaming saw and wrote.
  pub record WasWritten (key name title description : Text) (store : Store R) (v : Version)
      : Type 0 where
    pub before : R
    pub old : TagObject
    pub mine : owns name key ≡ true
    pub held : store.repo ≡ some before
    pub found : tag_target store.repo name ≡ some (tag old)
    pub now :
        (retitle_version key name title description store).after
        ≡ record store { repo = some (git.put_tag name (with_words old title description) before) }
    pub answered : v ≡ version_from name (tag (with_words old title description))

  pub retitle_version-WasWritten :
      (key name title description : Text) (store : Store R) {v : Version}
      → (retitle_version key name title description store).answer ≡ done v
      → WasWritten key name title description store v
  unfolding retitle_version
  retitle_version-WasWritten key name title description store h =
      let (after, went, now) = written-eq-done store _ h in
      let (free, e) = unless-eq-done (refuse_if_forget_pending store) _ went in
      let (target, found, e) = >>=-eq-done (tag_at_locked store.repo key name) _ e in
      let (t, is_tag, e) = >>=-eq-done (the_tag name target) _ e in
      let (before, held, put, answered) =
        rewritten-eq-done store.repo name (with_words t title description) e in
      let (mine, there) = tag_at_locked-eq-done store.repo key name found in
      record {
        before = before;
        old = t;
        mine = mine;
        held = held;
        found = there ∙ ap some (the_tag-eq-done name target is_tag);
        now = now ∙ ap (λ (r : R). record store { repo = some r }) put;
        answered = answered;
      }

-- The words that are read from a description as it is stored by a renaming.
read-restored_description :
    (message : Option Text) (description : Text)
    → read_description (strip (restored_description message description)) ≡ (
        if (read_description (version_words message).1).1
        then (strip description, true)
        else read_description (strip description))
unfolding restored_description
read-restored_description message description =
    elim (Bool-cases (read_description (version_words message).1).1) [
      | inl e ↦
          rw (e, strip-automatic_description description)
            (read_description-automatic_description description)
      | inr e ↦ rw e refl
    ]

words_of_body :
    (title description : Text)
    → no_blank_line title ≡ true
    → version_words (some (version_body title description)) ≡ (strip title, strip description)
words_of_body title description h =
    ap (λ s. version_words (some s)) (sym (append-nil (version_body title description)))
    ∙ version_words-version_body title description [] h (unfold rstrip in refl)

version_from-words :
    (name title description : Text) (t : TagObject)
    → no_blank_line title ≡ true
    → ((version_from name (tag (with_words t title description))).title ≡ strip title)
      × ((version_from name (tag (with_words t title description))).description
          ≡ strip (restored_description t.message description))
unfolding version_from with_words
version_from-words name title description t h =
    let words = words_of_body title (restored_description t.message description) h in
    (ap (λ (p : Text × Text). p.0) words, ap (λ (p : Text × Text). p.1) words)

version_from-description :
    (name : Text) (t : TagObject)
    → (version_from name (tag t)).description ≡ (version_words t.message).1
unfolding version_from
version_from-description name t = refl

module _ {R : Type 0} ⦃git : Git R⦄ where
  pub retitle_version-words :
      (key name title description : Text) (store : Store R) (old v : Version)
      → no_blank_line title ≡ true
      → read_version key name store ≡ done old
      → (retitle_version key name title description store).answer ≡ done v
      → (v.title ≡ strip title)
        × (read_description v.description ≡ (
            if (read_description old.description).1
            then (strip description, true)
            else read_description (strip description)))
  retitle_version-words key name title description store old v plain was h =
      let w = retitle_version-WasWritten key name title description store h in
      let (o, mine, found, old_is) = read_version-eq-done key name store was in
      let o_is : o ≡ tag w.old = cc in
      let words = version_from-words name title description w.old plain in
      let shown : v.description ≡ strip (restored_description w.old.message description) =
        ap (λ (v : Version). v.description) w.answered ∙ words.1 in
      let before : old.description ≡ (version_words w.old.message).1 =
        ap (λ (v : Version). v.description) (old_is ∙ ap (version_from name) o_is)
        ∙ version_from-description name w.old in
      (
        ap (λ (v : Version). v.title) w.answered ∙ words.0,
        rw (shown, before) (read-restored_description w.old.message description),
      )

  -- After a renaming: the version reads as the answer says, with the new words, marks the same
  -- revision at the same time as before, and another version reads as it did.
  pub record IsRenamed (key name title description other_key other : Text) (store : Store R)
      (old v : Version) : Type 0 where
    answered : (retitle_version key name title description store).answer ≡ done v
    reads : read_version key name (retitle_version key name title description store).after ≡ done v
    titled : v.title ≡ strip title
    described : read_description v.description ≡ (
        if (read_description old.description).1
        then (strip description, true)
        else read_description (strip description))
    revision : v.revision ≡ old.revision
    timestamp : v.timestamp ≡ old.timestamp
    untouched :
        read_version other_key other (retitle_version key name title description store).after
        ≡ read_version other_key other store

  -- Where no unfinished `forget` stands in the way, an annotated version of the dashboard is always
  -- renamed, to a title without a blank line: the answer is what is read afterwards, it has the new
  -- title and description, less the spaces around them, and is automatic if it was; the revision and
  -- the time are those of before, and a version of another name reads as before.
  pub retitle_version-IsRenamed :
      (key name title description other_key other : Text) (store : Store R) (old : Version)
      → no_blank_line title ≡ true
      → store.checkpoint ≡ false
      → read_version key name store ≡ done old
      → old.annotated ≡ true
      → other ≢ name
      → (v : Version) × IsRenamed key name title description other_key other store old v
  unfolding version_from with_words
  retitle_version-IsRenamed key name title description other_key other store old plain free was
        annotated apart =
      let (v, h) =
        retitle_version-answers key name title description store old free was annotated in
      let words = retitle_version-words key name title description store old v plain was h in
      let w = retitle_version-WasWritten key name title description store h in
      let (o, mine, found, old_is) = read_version-eq-done key name store was in
      let o_is : o ≡ tag w.old = cc in
      let old_from : old ≡ version_from name (tag w.old) = old_is ∙ ap (version_from name) o_is in
      let after = record store {
        repo = some (git.put_tag name (with_words w.old title description) w.before);
      } in
      let there : git.tag_at w.before name ≡ some (tag w.old) =
        ap (λ r. tag_target r name) (sym w.held) ∙ w.found in
      let (sha, stored) =
        git.tag_at-put_tag name w.old (with_words w.old title description) w.before there refl in
      (
        v,
        record {
          answered = h;
          titled = words.0;
          described = words.1;
          reads =
              ap (read_version key name) w.now
              ∙ (read_version_of key name after _ mine stored ∙ ap done (sym w.answered));
          revision = rw (w.answered, old_from) refl;
          timestamp = rw (w.answered, old_from) refl;
          untouched = rw w.now (
              read_version_same other_key other after store (
                git.tag_at-put_tag_other name _ w.before other apart
                ∙ ap (λ r. tag_target r other) (sym w.held)));
        },
      )
