-- ===== src/Operations/Create/Marked.antt =====
-- Which commit `async_create_version` marks.
use ha_dashboard_history.Base.{
  ℕ, ◌≡◌, refl, ap, sym, ◌∙◌, inl, inr, false, true, Option, none, some, Text, take, is_nil,
  Option-cases,
}
use ha_dashboard_history.Git.{Git}
use ha_dashboard_history.Records.{Version}
use ha_dashboard_history.Store.Types.{Store, done, ensure}
use ha_dashboard_history.Store.Resolve.{resolve}
use ha_dashboard_history.Store.Resolve.Ends.{resolve-IsCommit}
use ha_dashboard_history.Store.Resolve.Ids.{resolve_in-id}
use ha_dashboard_history.Store.Tags.{owns, or_head}
use ha_dashboard_history.Store.Versions.{create_version, read_version}
use ha_dashboard_history.Store.Versions.Create.{create_version-marks, resolve_of}
use ha_dashboard_history.Store.Versions.Refused.{ensure_id}
use ha_dashboard_history.Store.Index.{RevisionIndex}
use ha_dashboard_history.Store.Reads.{read_at}
use ha_dashboard_history.Operations.Create.{
  Reply, failed, crashed, replied, level_of, known_level, titled, chosen_revision, state_at,
  planned, carried_out, async_create_version, unknown_revision, not_there_at,
}
use ha_dashboard_history.Operations.Create.Planned.{
  >>=-eq-replied, replied_injective, created-eq-replied, planned-WasPlanned, owns-next_versions,
}

module _ {R : Type 0} ⦃git : Git R⦄ where
  state_at-resolve :
      (store : Store R) (key revision : Text) {state : Text × Text}
      → state_at store key revision ≡ replied state
      → resolve store revision ≡ some state.0
  unfolding state_at
  state_at-resolve store key revision h = elim (Option-cases (resolve store revision)) [
    | inl e ↦
        let out : state_at store key revision ≡ failed (unknown_revision revision) =
          rw (e, state_at) refl in
        absurd (cc)
    | inr (full, e) ↦ elim (Option-cases (read_at store key full)) [
      | inl e' ↦
          let out : state_at store key revision ≡ failed (not_there_at key (take 10 full)) =
            rw (e, e', state_at) refl in
          absurd (cc)
      | inr (text, e') ↦
          let out : state_at store key revision ≡ replied (full, text) =
            rw (e, e', state_at) refl in
          let same = replied_injective (sym out ∙ h) in e ∙ ap (λ (s : Text × Text). some s.0) same
    ]
  ]

  chosen_revision-given :
      (store : Store R) (cached : Option RevisionIndex) (key revision : Text) (live : Option Text)
      → is_nil revision ≡ false
      → chosen_revision store cached key (some revision) live ≡ replied revision
  unfolding chosen_revision
  chosen_revision-given store cached key revision live named = rw named refl

  planned-resolve :
      (store : Store R) (cached : Option RevisionIndex) (key level title revision : Text)
      (live : Option Text) (full name : Text)
      → is_nil revision ≡ false
      → planned store cached key level title (some revision) live ≡ replied (full, name)
      → resolve store revision ≡ some full
  unfolding planned
  planned-resolve store cached key level title revision live full name given h =
      let (level', known, h) = >>=-eq-replied (known_level level (level_of level)) _ h in
      let (title', has_title, h) = >>=-eq-replied (titled title) _ h in
      let (revision', chosen, h) =
        >>=-eq-replied (chosen_revision store cached key (some revision) live) _ h in
      let (state, there, h) = >>=-eq-replied (state_at store key revision') _ h in
      let same : revision ≡ revision' =
        replied_injective
          (sym (chosen_revision-given store cached key revision live given) ∙ chosen) in
      ap (resolve store) same
      ∙ (state_at-resolve store key revision' there
          ∙ ap (λ (p : Text × Text). some p.0) (replied_injective h))

  held_of_resolve :
      (store : Store R) (revision full : Text)
      → resolve store revision ≡ some full
      → (repo : R) × (store.repo ≡ some repo)
  unfolding resolve
  held_of_resolve store revision full h = elim (Option-cases store.repo) [
    | inl e ↦ let out : resolve store revision ≡ none = rw (e, resolve) refl in absurd (cc)
    | inr (repo, e) ↦ (repo, e)
  ]

  -- The id that a revision resolves to resolves to itself, also where a tag is made from it.
  resolve_again :
      (store : Store R) (revision full found : Text)
      → resolve store revision ≡ some full
      → resolve (ensure store) (or_head (some full)) ≡ some found
      → resolve store revision ≡ some found
  unfolding or_head
  resolve_again store revision full found h k =
      let (repo, held) = held_of_resolve store revision full h in
      let (same, named) =
        resolve_in-id repo full (resolve-IsCommit store repo revision full held h) in
      let head : or_head (some full) ≡ full = rw named refl in
      let again : resolve (ensure store) (or_head (some full)) ≡ some full =
        ap (λ s. resolve s (or_head (some full))) (ensure_id store repo held)
        ∙ (ap (resolve store) head ∙ (resolve_of store repo full held ∙ same)) in
      h ∙ (sym again ∙ k)

  -- A version that is made of a revision that is given reads as a mark on the commit that this
  -- revision resolves to.
  pub async_create_version-marks :
      (key level title description revision : Text) (live : Option Text) (now : ℕ)
      (cached : Option RevisionIndex) (store : Store R) (name : Text)
      → is_nil revision ≡ false
      → (async_create_version key level title description
          (some revision)
          live
          now
          cached
          store).reply
        ≡ replied name
      → (v : Version) × (read_version key name
            (async_create_version key level title description
              (some revision)
              live
              now
              cached
              store).after
          ≡ done v)
        × (resolve store revision ≡ some v.revision)
  unfolding async_create_version
  async_create_version-marks key level title description revision live now cached store name given
        h =
      carried (planned store cached key level title (some revision) live) refl h
    where
      carried :
          (plan : Reply (Text × Text))
          → planned store cached key level title (some revision) live ≡ plan
          → (carried_out store title description now plan).reply ≡ replied name
          → (v : Version) × (read_version key name
                (carried_out store title description now plan).after
              ≡ done v)
            × (resolve store revision ≡ some v.revision)
      carried (failed e) p h = absurd (cc)
      carried crashed p h = absurd (cc)
      carried (replied (full, name')) p h =
          let (answered, same) =
            created-eq-replied name' (create_version name' title description (some full) now store)
              name h in
          let w =
            planned-WasPlanned store cached key level title (some revision) live full name' p in
          let mine : owns name' key ≡ true =
            ap (λ n. owns n key) w.named ∙ owns-next_versions store key w.level in
          let (v, reads, marks) =
            create_version-marks key name' title description (some full) now store answered mine in
          (
            v,
            ap
                  (λ n.
                    read_version key n
                      (create_version name' title description (some full) now store).after)
                  (sym same)
                ∙ reads,
            resolve_again store revision full v.revision
                (planned-resolve store cached key level title revision live full name' given p)
                marks,
          )
