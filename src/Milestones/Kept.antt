-- ===== src/Milestones/Kept.antt =====
-- The automatic versions only ever add: no version is lost or changed by them.
use ha_dashboard_history.Base.{
  ℕ, ◌≡◌, inl, inr, Bool, true, false, List, Option, none, some, Text, get_elem?, map, ltb, length,
  Option-cases,
}
use ha_dashboard_history.Git.{Git}
use ha_dashboard_history.Records.{Change, Version}
use ha_dashboard_history.Versions.Number.{Level, major, latest, highest, automatic_level}
use ha_dashboard_history.Store.Types.{Store, done}
use ha_dashboard_history.Store.Versions.{read_version}
use ha_dashboard_history.Store.Versions.Kept.{create_version-keeps}
use ha_dashboard_history.Store.Reads.{list_changes, commit_times}
use ha_dashboard_history.Versions.Days.{
  recent_states, local_day, marks_since, day_is_marked, end_of_previous_day,
}
use ha_dashboard_history.Operations.Create.{
  Reply, failed, crashed, replied, names_of, carried_out, async_create_version,
}
use ha_dashboard_history.Milestones.{
  Setting, Marked, unmarked, async_make, floor_on, floor_from, async_floor_for, mark_state, mark_at,
  mark_newest, async_mark_day, last_of, any_revision, revisions_in, is_duplicate, async_versions,
  marked, guarded,
}

module _ {R : Type 0} ⦃git : Git R⦄ (key name : Text) (v : Version) where
  -- A version that is there before is there afterwards.
  abbrev Keeps : Store R → Store R → Type 0
  Keeps store after = read_version key name store ≡ done v → read_version key name after ≡ done v

  carried_out-Keeps :
      (store : Store R) (title description : Text) (now : ℕ) (plan : Reply (Text × Text))
      → Keeps store (carried_out store title description now plan).after
  unfolding carried_out
  carried_out-Keeps store title description now (failed e) h = h
  carried_out-Keeps store title description now crashed h = h
  carried_out-Keeps store title description now (replied (full, new)) h =
      create_version-keeps new title description (some full) now key name store v h

  -- The same of a step, as a record, so that the step is found from its type.
  record Adds (store : Store R) (m : Marked R) : Type 0 where
    keeps : Keeps store m.after

  unmarked-Adds : (store : Store R) → Adds store (unmarked store)
  unmarked-Adds store = record { keeps = λ h. h }

  guarded-Adds :
      (b : Bool) (store : Store R) (next : Marked R)
      → Adds store next
      → Adds store (guarded b store next)
  unfolding guarded
  guarded-Adds true store next h = unmarked-Adds store
  guarded-Adds false store next h = h

  async_make-Adds :
      (s : Setting) (of : Text) (level : Level) (change : Change) (store : Store R)
      → Adds store (async_make s of level change store)
  unfolding async_make async_create_version marked
  async_make-Adds s of level change store = record { keeps = carried_out-Keeps store _ _ s.now _ }

  floor_on-Adds :
      (s : Setting) (of : Text) (oldest : Option Change) (store : Store R)
      → Adds store (floor_on s of oldest store)
  unfolding floor_on
  floor_on-Adds s of none store = unmarked-Adds store
  floor_on-Adds s of (some oldest) store = async_make-Adds s of major oldest store

  floor_from-Adds :
      (s : Setting) (of : Text) (recorded : Option (List Change)) (store : Store R)
      → Adds store (floor_from s of recorded store)
  unfolding floor_from
  floor_from-Adds s of none store = unmarked-Adds store
  floor_from-Adds s of (some recorded) store = floor_on-Adds s of (last_of recorded) store

  async_floor_for-Adds :
      (s : Setting) (of : Text) (store : Store R) → Adds store (async_floor_for s of store)
  unfolding async_floor_for
  async_floor_for-Adds s of store =
      elim (Option-cases (latest of (names_of (async_versions store of)))) [
        | inl e ↦
            rw (e, async_floor_for)
              (floor_from-Adds s of (list_changes store s.cached of none) store)
        | inr (p, e) ↦ rw (e, async_floor_for) (unmarked-Adds store)
      ]

  mark_state-Adds :
      (s : Setting) (of : Text) (previous : Change) (store : Store R)
      → Adds store (mark_state s of previous store)
  unfolding mark_state
  mark_state-Adds s of previous store =
      let found = async_versions store of in
      let day = local_day previous.timestamp s.zone in
      let recent = marks_since day found s.zone in
      guarded-Adds (any_revision previous.revision found) store _ (
        guarded-Adds (day_is_marked day recent (commit_times store (revisions_in recent)) s.zone)
          store _
          (guarded-Adds
            (is_duplicate store of previous.revision (highest (λ (v : Version). v.name) of found))
            store _ (async_make-Adds s of (automatic_level of (names_of found)) previous store)))

  mark_at-Adds :
      (s : Setting) (of : Text) (newest : List Change) (at : Option ℕ) (store : Store R)
      → Adds store (mark_at s of newest at store)
  unfolding mark_at
  mark_at-Adds s of newest none store = unmarked-Adds store
  mark_at-Adds s of newest (some at) store = elim (Option-cases (get_elem? newest at)) [
    | inl e ↦ rw (e, mark_at) (unmarked-Adds store)
    | inr (previous, e) ↦ rw (e, mark_at) (mark_state-Adds s of previous store)
  ]

  mark_newest-Adds :
      (s : Setting) (of : Text) (newest : Option (List Change)) (store : Store R)
      → Adds store (mark_newest s of newest store)
  unfolding mark_newest
  mark_newest-Adds s of none store = unmarked-Adds store
  mark_newest-Adds s of (some newest) store = guarded-Adds (ltb (length newest) 2) store _ (
      mark_at-Adds s of newest
        (end_of_previous_day (map (λ (c : Change). c.timestamp) newest) s.zone) store)

  async_mark_day-Adds :
      (s : Setting) (daily : Bool) (of : Text) (store : Store R)
      → Adds store (async_mark_day s daily of store)
  unfolding async_mark_day
  async_mark_day-Adds s false of store = unmarked-Adds store
  async_mark_day-Adds s true of store =
      mark_newest-Adds s of (list_changes store s.cached of (some recent_states)) store

-- What the automatic versions do to a store, one dashboard after the other under the lock: the floor
-- of a dashboard, or the mark of a day, in whatever setting it comes to it.
pub data Step {R : Type 0} ⦃git : Git R⦄ (store : Store R) : Store R → Type 0 where
  floor : (s : Setting) (of : Text) → Step store (async_floor_for s of store).after
  mark :
      (s : Setting) (daily : Bool) (of : Text) → Step store (async_mark_day s daily of store).after

pub data Reach {R : Type 0} ⦃git : Git R⦄ (start : Store R) : Store R → Type 0 where
  here : Reach start start
  next : {before after : Store R} → Reach start before → Step before after → Reach start after

module _ {R : Type 0} ⦃git : Git R⦄ where
  step-keeps :
      (key name : Text) (v : Version) {before after : Store R}
      → Step before after
      → read_version key name before ≡ done v
      → read_version key name after ≡ done v
  step-keeps key name v (floor s of) h = (async_floor_for-Adds key name v s of _).keeps h
  step-keeps key name v (mark s daily of) h = (async_mark_day-Adds key name v s daily of _).keeps h

  -- However many floors are laid and days are marked, in any order and at any times, each version
  -- that was there at the start reads as it did.
  pub Reach-keeps :
      (key name : Text) (v : Version) {start after : Store R}
      → Reach start after
      → read_version key name start ≡ done v
      → read_version key name after ≡ done v
  Reach-keeps key name v here h = h
  Reach-keeps key name v (next r step) h = step-keeps key name v step (Reach-keeps key name v r h)
