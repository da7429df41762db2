-- ===== src/Store/Versions/Create.antt =====
-- `create_version`: a name beside the others, on a commit that is there.
use ha_dashboard_history.Base.{
  ℕ, ◌≡◌, ◌≢◌, refl, ap, sym, ◌∙◌, inl, inr, true, [], ◌++◌, Option, none, some, Text, strip,
  rstrip, Option-cases,
}
use ha_dashboard_history.Git.{Git, TagObject, tag}
use ha_dashboard_history.Records.{Version}
use ha_dashboard_history.Store.Types.{
  Store, raised, done, ensure, refuse_if_forget_pending, NoneType, no_value, >>=-eq-done,
  unless-eq-done, or_raise-eq-done, revision_unknown, ref_format,
}
use ha_dashboard_history.Store.Resolve.{resolve, resolve_in}
use ha_dashboard_history.Store.Tags.{version_from, version_words, version_body, owns, or_head}
use ha_dashboard_history.Store.Tags.Words.{no_blank_line, version_words-version_body}
use ha_dashboard_history.Store.Tags.Free.{colliding_name-IsFree}
use ha_dashboard_history.Store.Tags.Below.{IsFree}
use ha_dashboard_history.Store.Versions.{
  tag_target, marked_commit, refuse_colliding_name, tag_create, tagged, create_version,
  read_version,
}
use ha_dashboard_history.Store.Versions.Parts.{written-eq-done, read_version_of, read_version_same}

from_message :
    (name title description end : Text) (t : TagObject)
    → no_blank_line title ≡ true
    → rstrip end ≡ []
    → t.message ≡ some (version_body title description ++ end)
    → ((version_from name (tag t)).title ≡ strip title)
      × ((version_from name (tag t)).description ≡ strip description)
unfolding version_from
from_message name title description end t plain blank h =
    let words : version_words t.message ≡ (strip title, strip description) =
      ap version_words h ∙ version_words-version_body title description end plain blank in
    (ap (λ (p : Text × Text). p.0) words, ap (λ (p : Text × Text). p.1) words)

module _ {R : Type 0} ⦃git : Git R⦄ where
  marked_commit-eq-done :
      (repo : Option R) (revision : Option Text) {marked : Text}
      → marked_commit repo revision ≡ done marked
      → (r : R) × (repo ≡ some r) × (resolve_in r (or_head revision) ≡ some marked)
  unfolding marked_commit
  marked_commit-eq-done none revision h = absurd (cc)
  marked_commit-eq-done (some r) revision h = (
    r,
    refl,
    or_raise-eq-done (revision_unknown (or_head revision)) (resolve_in r (or_head revision)) h,
  )

  tag_create-some :
      (r : R) (name body marked : Text) (now : ℕ) {after : R} {u : NoneType}
      → tag_create (some r) name body marked now ≡ done (after, u)
      → git.create_tag name body marked now r ≡ some after
  unfolding tag_create
  tag_create-some r name body marked now h =
      elim (Option-cases (git.create_tag name body marked now r)) [
        | inl e ↦
            let out : tag_create (some r) name body marked now ≡ raised (ref_format name) =
              rw (e, tag_create) refl in
            absurd (cc)
        | inr (s, e) ↦
            let out : tag_create (some r) name body marked now ≡ done (s, no_value) =
              rw (e, tag_create) refl in
            cc
      ]

  refuse_colliding_name-IsFree :
      (repo : Option R) (r : R) (name : Text)
      → repo ≡ some r
      → refuse_colliding_name repo name ≡ none
      → IsFree name (git.tag_names r)
  unfolding refuse_colliding_name
  refuse_colliding_name-IsFree repo r name there h =
      (colliding_name-IsFree name (git.tag_names r)).0
        (sym (ap (λ o. refuse_colliding_name o name) there) ∙ h)

  -- What a successful creation saw and wrote.
  pub record WasTagged (name title description : Text) (revision : Option Text) (now : ℕ)
      (store : Store R) : Type 0 where
    pub before : R
    pub after : R
    pub marked : Text
    pub held : (ensure store).repo ≡ some before
    pub free : IsFree name (git.tag_names before)
    pub found : resolve_in before (or_head revision) ≡ some marked
    pub made : git.create_tag name (version_body title description) marked now before ≡ some after
    pub is_after :
        (create_version name title description revision now store).after
        ≡ record (ensure store) { repo = some after }

  pub create_version-WasTagged :
      (name title description : Text) (revision : Option Text) (now : ℕ) (store : Store R)
      {u : NoneType}
      → (create_version name title description revision now store).answer ≡ done u
      → WasTagged name title description revision now store
  unfolding create_version tagged
  create_version-WasTagged name title description revision now store h =
      let (after, went, is_after) = written-eq-done (ensure store) _ h in
      let (may, e) = unless-eq-done (refuse_if_forget_pending (ensure store)) _ went in
      let (free, e) = unless-eq-done (refuse_colliding_name (ensure store).repo name) _ e in
      let (marked, found, e) = >>=-eq-done (marked_commit (ensure store).repo revision) _ e in
      let (before, held, found) = marked_commit-eq-done (ensure store).repo revision found in
      let e' : tag_create (some before) name (version_body title description) marked now
          ≡ done (after, _) =
        ap (λ o. tag_create o name (version_body title description) marked now) (sym held) ∙ e in
      record {
        before = before;
        after = after;
        marked = marked;
        held = held;
        free = refuse_colliding_name-IsFree (ensure store).repo before name held free;
        found = found;
        made = tag_create-some before name (version_body title description) marked now e';
        is_after = is_after;
      }

  -- The version that a successful creation leaves.
  pub record IsCreated (key name title description other_key other : Text) (revision : Option Text)
      (now : ℕ) (store : Store R) (v : Version) : Type 0 where
    pub reads :
        read_version key name (create_version name title description revision now store).after
        ≡ done v
    pub state : resolve (ensure store) (or_head revision) ≡ some v.revision
    pub made : v.timestamp ≡ now
    pub titled : v.title ≡ strip title
    pub described : v.description ≡ strip description
    pub untouched :
        read_version other_key other
          (create_version name title description revision now store).after
        ≡ read_version other_key other (ensure store)

  pub resolve_of :
      (store : Store R) (repo : R) (revision : Text)
      → store.repo ≡ some repo
      → resolve store revision ≡ resolve_in repo revision
  unfolding resolve
  resolve_of store repo revision there = rw there refl

  -- `create_version`, where it answers, leaves a version of the dashboard that its name belongs to:
  -- it marks the commit that the revision (HEAD, where none is given) resolves to, it was made now,
  -- and it shows the title, if that has no blank line in it, and the description, less the spaces
  -- around them. A version of another name reads as before.
  pub create_version-IsCreated :
      (key name title description other_key other : Text) (revision : Option Text) (now : ℕ)
      (store : Store R)
      → (create_version name title description revision now store).answer ≡ done no_value
      → owns name key ≡ true
      → no_blank_line title ≡ true
      → other ≢ name
      → (v : Version) × IsCreated key name title description other_key other revision now store v
  unfolding version_from
  create_version-IsCreated key name title description other_key other revision now store h mine
        plain apart =
      let w = create_version-WasTagged name title description revision now store h in
      let (t, end, there, message, blank, marked, time) =
        git.tag_at-create_tag name (version_body title description) w.marked now w.before w.after
          w.made in
      let (titled, described) = from_message name title description end t plain blank message in
      let after = record (ensure store) { repo = some w.after } in
      (
        version_from name (tag t),
        record {
          reads =
              ap (read_version key name) w.is_after
              ∙ read_version_of key name after (tag t) mine there;
          state =
              resolve_of (ensure store) w.before (or_head revision) w.held
              ∙ (w.found ∙ ap some (sym marked));
          made = time;
          titled = titled;
          described = described;
          untouched =
              ap (read_version other_key other) w.is_after
              ∙ read_version_same other_key other after (ensure store) (
                  git.tag_at-create_tag_other name (version_body title description) w.marked now
                    w.before w.after other w.made apart
                  ∙ ap (λ r. tag_target r other) (sym w.held));
        },
      )

  -- The same of its reading alone, whatever the words are.
  pub create_version-reads :
      (key name title description : Text) (revision : Option Text) (now : ℕ) (store : Store R)
      → (create_version name title description revision now store).answer ≡ done no_value
      → owns name key ≡ true
      → (v : Version) × (read_version key name
            (create_version name title description revision now store).after
          ≡ done v)
  create_version-reads key name title description revision now store h mine =
      let w = create_version-WasTagged name title description revision now store h in
      let (t, end, there, message, blank, marked, time) =
        git.tag_at-create_tag name (version_body title description) w.marked now w.before w.after
          w.made in
      (
        version_from name (tag t),
        ap (read_version key name) w.is_after
            ∙ read_version_of key name (record (ensure store) { repo = some w.after }) (tag t) mine
                there,
      )

  -- The same of the commit that it marks.
  pub create_version-marks :
      (key name title description : Text) (revision : Option Text) (now : ℕ) (store : Store R)
      → (create_version name title description revision now store).answer ≡ done no_value
      → owns name key ≡ true
      → (v : Version) × (read_version key name
            (create_version name title description revision now store).after
          ≡ done v)
        × (resolve (ensure store) (or_head revision) ≡ some v.revision)
  unfolding version_from
  create_version-marks key name title description revision now store h mine =
      let w = create_version-WasTagged name title description revision now store h in
      let (t, end, there, message, blank, marked, time) =
        git.tag_at-create_tag name (version_body title description) w.marked now w.before w.after
          w.made in
      (
        version_from name (tag t),
        ap (read_version key name) w.is_after
            ∙ read_version_of key name (record (ensure store) { repo = some w.after }) (tag t) mine
                there,
        resolve_of (ensure store) w.before (or_head revision) w.held
            ∙ (w.found ∙ ap some (sym marked)),
      )
