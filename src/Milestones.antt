-- ===== src/Milestones.antt =====
-- milestones.py: versions that appear without anybody having asked for one.
pub mod Kept
pub mod Floor
pub mod Listed
pub mod Mark
pub mod Guards
use ha_dashboard_history.Base.{
  ℕ, Bool, true, false, List, [], ◌∷◌, map, Option, none, some, Text, codes, ltb, length, get_elem?,
  list_eq, nat_eq, ◌==◌, if◌then◌else◌,
}
use ha_dashboard_history.Records.{Change, Version}
use ha_dashboard_history.Git.{Git}
use ha_dashboard_history.Versions.Number.{
  Level, patch, minor, major, latest, highest, automatic_level,
}
use ha_dashboard_history.Versions.Description.{automatic_description}
use ha_dashboard_history.Versions.Days.{
  Zone, Day, local_day, end_of_previous_day, recent_states, marks_since, day_is_marked,
}
use ha_dashboard_history.Versions.Days.Title.{day_title}
use ha_dashboard_history.Store.Types.{Store}
use ha_dashboard_history.Store.Versions.{list_versions}
use ha_dashboard_history.Store.Index.{RevisionIndex}
use ha_dashboard_history.Store.Reads.{list_changes, list_dashboards, commit_times, same_state}
use ha_dashboard_history.Operations.Create.{
  Reply, failed, crashed, replied, After, names_of, async_create_version,
}

-- A store behind a step, with the name that was made, if one was.
pub record Marked (R : Type 0) : Type 0 where
  pub after : Store R
  pub made : Option Text

abbrev pub unmarked : {R : Type 0} → Store R → Marked R
unmarked store = record { after = store; made = none }

-- `if test: return`, in front of what follows.
unfoldable pub guarded : {R : Type 0} → Bool → Store R → Marked R → Marked R
guarded true store next = unmarked store
guarded false store next = next

-- `answer.get("created")`; an exception ends in the guard around the caller.
abbrev pub created_of : Reply Text → Option Text
created_of (replied name) = some name
created_of _ = none

abbrev pub level_text : Level → Text
level_text patch = codes "patch"
level_text minor = codes "minor"
level_text major = codes "major"

-- `recorded[-1]`
abbrev pub last_of : List Change → Option Change
last_of [] = none
last_of (c ∷ []) = some c
last_of (c ∷ d ∷ changes) = last_of (d ∷ changes)

abbrev pub any_revision : Text → List Version → Bool
any_revision revision [] = false
any_revision revision (v ∷ versions) =
    if v.revision == revision then true else any_revision revision versions

abbrev pub revisions_in : List Version → List Text
revisions_in [] = []
revisions_in (v ∷ versions) = v.revision ∷ revisions_in versions

-- What surrounds a step: the time, the zone, and the index that the store has cached.
pub record Setting : Type 0 where
  pub now : ℕ
  pub zone : Zone
  pub cached : Option RevisionIndex

module _ {R : Type 0} ⦃git : Git R⦄ where
  unfoldable pub marked : After R Text → Marked R
  marked result = record { after = result.after; made = created_of result.reply }

  -- `_async_make`
  unfoldable pub async_make : Setting → Text → Level → Change → Store R → Marked R
  unfolding async_create_version day_title automatic_description marked
  async_make s key level change store = marked (
      async_create_version key (level_text level) (day_title change.timestamp s.zone)
        (automatic_description []) (some change.revision) none s.now s.cached store)

  -- `await self._async_versions(key)`
  unfoldable pub async_versions : Store R → Text → List Version
  unfolding list_versions
  async_versions store key = list_versions store (some key)

  unfoldable pub floor_on : Setting → Text → Option Change → Store R → Marked R
  unfolding async_make
  floor_on s key none store = unmarked store
  floor_on s key (some oldest) store = async_make s key major oldest store

  unfoldable pub floor_from : Setting → Text → Option (List Change) → Store R → Marked R
  unfolding floor_on
  floor_from s key none store = unmarked store
  floor_from s key (some recorded) store = floor_on s key (last_of recorded) store

  -- `_async_floor_for`
  unfoldable pub async_floor_for : Setting → Text → Store R → Marked R
  unfolding latest async_versions list_changes floor_from
  async_floor_for s key store = elim (latest key (names_of (async_versions store key))) [
    | some _ ↦ unmarked store
    | none ↦ floor_from s key (list_changes store s.cached key none) store
  ]

  -- The loop of `async_lay_the_floor`: the names that were made, in its order.
  unfoldable pub floors : Setting → List Text → Store R → Store R × List Text
  unfolding async_floor_for
  floors s [] store = (store, [])
  floors s (key ∷ live) store =
      let one = async_floor_for s key store in
      let (after, made) = floors s live one.after in
      elim one.made [ none ↦ (after, made) | some name ↦ (after, name ∷ made) ]

  unfoldable pub async_lay_the_floor : Setting → Store R → Store R × List Text
  unfolding floors list_dashboards
  async_lay_the_floor s store = floors s (list_dashboards store) store

  -- Whether the highest numbered version holds the state already.
  unfoldable pub is_duplicate : Store R → Text → Text → Option Version → Bool
  unfolding same_state
  is_duplicate store key revision none = false
  is_duplicate store key revision (some top) = same_state store key revision top.revision

  -- The guards of `_async_mark_day` on the last state of the day before, and the mark on it.
  unfoldable pub mark_state : Setting → Text → Change → Store R → Marked R
  unfolding guarded async_versions marks_since day_is_marked commit_times local_day highest
      is_duplicate automatic_level async_make
  mark_state s key previous store =
      let found = async_versions store key in
      let day = local_day previous.timestamp s.zone in
      let recent = marks_since day found s.zone in
      let times = commit_times store (revisions_in recent) in
      guarded (any_revision previous.revision found) store (
        guarded (day_is_marked day recent times s.zone) store (
          guarded
            (is_duplicate store key previous.revision (highest (λ (v : Version). v.name) key found))
            store (async_make s key (automatic_level key (names_of found)) previous store)))

  unfoldable pub mark_at : Setting → Text → List Change → Option ℕ → Store R → Marked R
  unfolding mark_state
  mark_at s key newest none store = unmarked store
  mark_at s key newest (some at) store = elim (get_elem? newest at) [
    | none ↦ unmarked store
    | some previous ↦ mark_state s key previous store
  ]

  unfoldable pub mark_newest : Setting → Text → Option (List Change) → Store R → Marked R
  unfolding guarded mark_at end_of_previous_day
  mark_newest s key none store = unmarked store
  mark_newest s key (some newest) store = guarded (ltb (length newest) 2) store (
      mark_at s key newest (end_of_previous_day (map (λ (c : Change). c.timestamp) newest) s.zone)
        store)

  -- `_async_mark_day`, with the option `daily_versions`
  unfoldable pub async_mark_day : Setting → Bool → Text → Store R → Marked R
  unfolding mark_newest list_changes
  async_mark_day s false key store = unmarked store
  async_mark_day s true key store =
      mark_newest s key (list_changes store s.cached key (some recent_states)) store
