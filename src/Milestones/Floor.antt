-- ===== src/Milestones/Floor.antt =====
-- The floor: a first version, once.
use ha_dashboard_history.Base.{
  ◌≡◌, refl, ap, sym, subst, ◌∙◌, inl, inr, List, Option, none, some, Text, list_eq, nat_eq,
  Option-cases,
}
use ha_dashboard_history.Git.{Git}
use ha_dashboard_history.Records.{Change, Version}
use ha_dashboard_history.Versions.Number.{
  Level, major, Parts, latest, parse, candidates, bump, base_of, version_name,
}
use ha_dashboard_history.Versions.Number.Latest.{AtLeast, AtLeast-latest}
use ha_dashboard_history.Versions.Number.RoundTrip.{parse-version_name}
use ha_dashboard_history.Store.Types.{Store, done}
use ha_dashboard_history.Store.Versions.{read_version, list_versions}
use ha_dashboard_history.Store.Reads.{list_changes}
use ha_dashboard_history.Operations.Create.{names_of, next_versions}
use ha_dashboard_history.Operations.Create.Made.{async_create_version-named}
use ha_dashboard_history.Milestones.{
  Setting, Marked, unmarked, level_text, marked, async_make, async_versions, floor_on, floor_from,
  async_floor_for, last_of,
}
use ha_dashboard_history.Milestones.Listed.{level_text-level_of, created_of-eq-some, listed_of_read}

module _ {R : Type 0} ⦃git : Git R⦄ where
  -- What `_async_make` made, and that it reads.
  pub async_make-named :
      (s : Setting) (key : Text) (level : Level) (change : Change) (store : Store R) (name : Text)
      → (async_make s key level change store).made ≡ some name
      → (name ≡ (next_versions store key).at_level level)
        × ((v : Version) × (read_version key name (async_make s key level change store).after
              ≡ done v))
  unfolding async_make marked
  async_make-named s key level change store name h =
      async_create_version-named key (level_text level) _ _ (some change.revision) none s.now
        s.cached store name level (level_text-level_of level) (created_of-eq-some _ name h)

  floor_on-made :
      (s : Setting) (key : Text) (oldest : Option Change) (store : Store R) (name : Text)
      → (floor_on s key oldest store).made ≡ some name
      → (change : Change) × (floor_on s key oldest store ≡ async_make s key major change store)
  unfolding floor_on
  floor_on-made s key none store name h = absurd (cc)
  floor_on-made s key (some oldest) store name h = (oldest, refl)

  floor_from-made :
      (s : Setting) (key : Text) (recorded : Option (List Change)) (store : Store R) (name : Text)
      → (floor_from s key recorded store).made ≡ some name
      → (change : Change) × (floor_from s key recorded store ≡ async_make s key major change store)
  unfolding floor_from
  floor_from-made s key none store name h = absurd (cc)
  floor_from-made s key (some recorded) store name h =
      floor_on-made s key (last_of recorded) store name h

  floor_for-has_version :
      (s : Setting) (key : Text) (store : Store R) {p : Parts}
      → latest key (names_of (async_versions store key)) ≡ some p
      → async_floor_for s key store ≡ unmarked store
  unfolding async_floor_for
  floor_for-has_version s key store h = rw (h, async_floor_for) refl

  floor_for-made :
      (s : Setting) (key : Text) (store : Store R) (name : Text)
      → (async_floor_for s key store).made ≡ some name
      → (latest key (names_of (async_versions store key)) ≡ none)
        × ((change : Change) × (async_floor_for s key store ≡ async_make s key major change store))
  unfolding async_floor_for
  floor_for-made s key store name h =
      elim (Option-cases (latest key (names_of (async_versions store key)))) [
        | inr (p, e) ↦
            let out : none ≡ some name =
              ap (λ (m : Marked R). m.made) (sym (floor_for-has_version s key store e)) ∙ h in
            absurd (cc)
        | inl e ↦
            let recorded = list_changes store s.cached key none in
            let now : async_floor_for s key store ≡ floor_from s key recorded store =
              rw (e, async_floor_for) refl in
            let (change, made) =
              floor_from-made s key recorded store name
                (ap (λ (m : Marked R). m.made) (sym now) ∙ h) in
            (e, (change, now ∙ made))
      ]

  first_name :
      (store : Store R) (key : Text)
      → latest key (names_of (async_versions store key)) ≡ none
      → (next_versions store key).at_level major ≡ version_name key (1, 0, 0)
  unfolding next_versions async_versions candidates bump
  first_name store key h = ap (λ o. version_name key (bump (base_of o) major)) h

  version-is_latest :
      (key name : Text) (store : Store R) (v : Version) (p : Parts)
      → read_version key name store ≡ done v
      → parse key name ≡ some p
      → (q : Parts) × (latest key (names_of (async_versions store key)) ≡ some q)
  unfolding async_versions
  version-is_latest key name store v p h number =
      let names = names_of (list_versions store (some key)) in
      let above = AtLeast-latest key names name p (listed_of_read key name store v h) number in
      elim (Option-cases (latest key names)) [
        | inl e ↦
            let none_above : AtLeast none p = subst (λ o. AtLeast o p) e above in absurd none_above
        | inr found ↦ found
      ]

  -- The floor of a dashboard that has no number yet, where it is laid, is `v1.0.0`, and laying it
  -- again, whenever that is, changes nothing.
  pub async_floor_for-once :
      (s later : Setting) (key : Text) (store : Store R) (name : Text)
      → (async_floor_for s key store).made ≡ some name
      → (name ≡ version_name key (1, 0, 0))
        × (async_floor_for later key (async_floor_for s key store).after
            ≡ unmarked (async_floor_for s key store).after)
  async_floor_for-once s later key store name h =
      let (fresh, change_made) = floor_for-made s key store name h in
      let (change, made) = change_made in
      let (is, version_reads) =
        async_make-named s key major change store name
          (ap (λ (m : Marked R). m.made) (sym made) ∙ h) in
      let (v, reads) = version_reads in
      let first : name ≡ version_name key (1, 0, 0) = is ∙ first_name store key fresh in
      let reads' : read_version key name (async_floor_for s key store).after ≡ done v =
        ap (λ (m : Marked R). read_version key name m.after) made ∙ reads in
      let (q, found) =
        version-is_latest key name (async_floor_for s key store).after v (1, 0, 0) reads'
          (ap (parse key) first ∙ parse-version_name key (1, 0, 0)) in
      (first, floor_for-has_version later key (async_floor_for s key store).after found)
