-- ===== src/Operations/Create/Made.antt =====
-- What `async_create_version` has made when it answers with a name.
use ha_dashboard_history.Base.{
  ℕ, ◌≡◌, refl, ap, sym, subst, ◌∙◌, true, ◌∷◌, Option, some, Text, strip, nat_eq, Elem,
}
use ha_dashboard_history.Git.{Git}
use ha_dashboard_history.Records.{Version}
use ha_dashboard_history.Versions.Number.{Level}
use ha_dashboard_history.Store.Types.{Store, done, ensure}
use ha_dashboard_history.Store.Resolve.{resolve}
use ha_dashboard_history.Store.Tags.{owns, or_head}
use ha_dashboard_history.Store.Tags.Words.{no_blank_line}
use ha_dashboard_history.Store.Versions.{create_version, list_versions, read_version}
use ha_dashboard_history.Store.Versions.Create.{create_version-IsCreated, create_version-reads}
use ha_dashboard_history.Store.Index.{RevisionIndex}
use ha_dashboard_history.Store.Reads.{read_at}
use ha_dashboard_history.Operations.Create.{
  Reply, failed, crashed, replied, names_of, level_of, known_level, titled, chosen_revision,
  state_at, next_versions, planned, carried_out, async_create_version,
}
use ha_dashboard_history.Operations.Create.Planned.{
  >>=-eq-replied, replied_injective, longer≢, created-eq-replied, planned-WasPlanned,
  next_versions-fresh, owns-next_versions,
}

module _ {R : Type 0} ⦃git : Git R⦄ where
  -- A version that the operation has made.
  pub record IsMade (key title description name : Text) (now : ℕ) (before after : Store R)
      (v : Version) : Type 0 where
    pub full : Text
    pub text : Text
    pub there : read_at before key full ≡ some text
    pub marked : resolve (ensure before) (or_head (some full)) ≡ some v.revision
    pub fresh : ¬ Elem name (names_of (list_versions before (some key)))
    pub reads : read_version key name after ≡ done v
    pub titled_so : v.title ≡ strip title
    pub described_so : v.description ≡ strip description
    pub made_now : v.timestamp ≡ now

  -- Where `async_create_version` answers with a name, that is a name of the dashboard that none of
  -- its versions had, and it reads as a version with the title, if that has no blank line in it,
  -- and the description asked for, made now, on a commit that holds a state of the dashboard.
  pub async_create_version-IsMade :
      (key level title description : Text) (revision live : Option Text) (now : ℕ)
      (cached : Option RevisionIndex) (store : Store R) (name : Text)
      → no_blank_line title ≡ true
      → (async_create_version key level title description revision live now cached store).reply
        ≡ replied name
      → (v : Version) × IsMade key title description name now store
          (async_create_version key level title description revision live now cached store).after
          v
  unfolding async_create_version
  async_create_version-IsMade key level title description revision live now cached store name plain
        h =
      carried (planned store cached key level title revision live) refl h
    where
      carried :
          (plan : Reply (Text × Text))
          → planned store cached key level title revision live ≡ plan
          → (carried_out store title description now plan).reply ≡ replied name
          → (v : Version) × IsMade key title description name now store
              (carried_out store title description now plan).after
              v
      carried (failed e) p h = absurd (cc)
      carried crashed p h = absurd (cc)
      carried (replied (full, name')) p h =
          let (answered, same) =
            created-eq-replied name' (create_version name' title description (some full) now store)
              name h in
          let w = planned-WasPlanned store cached key level title revision live full name' p in
          let mine : owns name' key ≡ true =
            ap (λ n. owns n key) w.named ∙ owns-next_versions store key w.level in
          let (v, c) =
            create_version-IsCreated key name' title description key (b'x' ∷ name') (some full) now
              store answered mine plain (longer≢ b'x' name') in
          (
            v,
            subst
                (λ n.
                  IsMade key title description n now store
                    (create_version name' title description (some full) now store).after v)
                same
                (record {
                  full = full;
                  text = w.text;
                  there = w.there;
                  marked = c.state;
                  fresh =
                      subst (λ n. ¬ Elem n (names_of (list_versions store (some key))))
                        (sym w.named) (next_versions-fresh store key w.level);
                  reads = c.reads;
                  titled_so = c.titled;
                  described_so = c.described;
                  made_now = c.made;
                }),
          )

  planned-level :
      (store : Store R) (cached : Option RevisionIndex) (key level title : Text)
      (revision live : Option Text) (full name : Text) (at : Level)
      → level_of level ≡ some at
      → planned store cached key level title revision live ≡ replied (full, name)
      → name ≡ (next_versions store key).at_level at
  unfolding planned
  planned-level store cached key level title revision live full name at known h =
      let (level', is_level, h) = >>=-eq-replied (known_level level (level_of level)) _ h in
      let (title', has_title, h) = >>=-eq-replied (titled title) _ h in
      let (revision', chosen, h) =
        >>=-eq-replied (chosen_revision store cached key revision live) _ h in
      let (state, there, h) = >>=-eq-replied (state_at store key revision') _ h in
      let same : at ≡ level' = replied_injective (ap (known_level level) (sym known) ∙ is_level) in
      sym (ap (λ (p : Text × Text). p.1) (replied_injective h))
      ∙ ap (next_versions store key).at_level (sym same)

  -- What the operation was told to make, and that it reads as a version, whatever the title is.
  pub async_create_version-named :
      (key level title description : Text) (revision live : Option Text) (now : ℕ)
      (cached : Option RevisionIndex) (store : Store R) (name : Text) (at : Level)
      → level_of level ≡ some at
      → (async_create_version key level title description revision live now cached store).reply
        ≡ replied name
      → (name ≡ (next_versions store key).at_level at)
        × ((v : Version) × (read_version key name
                (async_create_version key level title description revision live now cached
                  store).after
              ≡ done v))
  unfolding async_create_version
  async_create_version-named key level title description revision live now cached store name at
        known h =
      carried (planned store cached key level title revision live) refl h
    where
      carried :
          (plan : Reply (Text × Text))
          → planned store cached key level title revision live ≡ plan
          → (carried_out store title description now plan).reply ≡ replied name
          → (name ≡ (next_versions store key).at_level at)
            × ((v : Version) × (read_version key name
                    (carried_out store title description now plan).after
                  ≡ done v))
      carried (failed e) p h = absurd (cc)
      carried crashed p h = absurd (cc)
      carried (replied (full, name')) p h =
          let (answered, same) =
            created-eq-replied name' (create_version name' title description (some full) now store)
              name h in
          let named : name' ≡ (next_versions store key).at_level at =
            planned-level store cached key level title revision live full name' at known p in
          let mine : owns name' key ≡ true =
            ap (λ n. owns n key) named ∙ owns-next_versions store key at in
          let (v, reads) =
            create_version-reads key name' title description (some full) now store answered mine in
          (
            sym same ∙ named,
            (
              v,
              ap
                    (λ n.
                      read_version key n
                        (create_version name' title description (some full) now store).after)
                    (sym same)
                  ∙ reads,
            ),
          )
