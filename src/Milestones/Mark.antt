-- ===== src/Milestones/Mark.antt =====
-- The mark of a day: which state it is put on, and what it found before.
use ha_dashboard_history.Base.{
  All, is_nil, ◌≢◌, ℕ, ◌≡◌, refl, ap, sym, subst, ◌∙◌, inl, inr, Bool, true, false, List, [], ◌∷◌,
  map, Option, none, some, Text, ltb, length, get_elem?, list_eq, nat_eq, Option-cases,
}
use ha_dashboard_history.Git.{Git}
use ha_dashboard_history.Records.{Change, Version}
use ha_dashboard_history.Versions.Number.{Level, highest, automatic_level}
use ha_dashboard_history.Versions.Days.{
  local_day, end_of_previous_day, recent_states, marks_since, day_is_marked,
}
use ha_dashboard_history.Versions.Days.Window.{Answers, end_of_previous_day-Answers}
use ha_dashboard_history.Store.Types.{Store, done}
use ha_dashboard_history.Store.Versions.{read_version}
use ha_dashboard_history.Store.Reads.{list_changes, commit_times}
use ha_dashboard_history.Operations.Create.{names_of, next_versions}
use ha_dashboard_history.Milestones.{
  level_text, marked, Setting, Marked, unmarked, guarded, any_revision, revisions_in, is_duplicate,
  async_make, async_versions, mark_state, mark_at, mark_newest, async_mark_day,
}
use ha_dashboard_history.Milestones.Floor.{async_make-named}
use ha_dashboard_history.Milestones.Listed.{created_of-eq-some}
use ha_dashboard_history.Milestones.Guards.{
  IsElsewhere, HasIds, any_revision-All, day_is_marked-All, All-get_elem?,
}
use ha_dashboard_history.Store.Resolve.{resolve}
use ha_dashboard_history.Operations.Create.Marked.{async_create_version-marks}

guarded-made :
    {R : Type 0} (b : Bool) (store : Store R) (next : Marked R) {name : Text}
    → (guarded b store next).made ≡ some name
    → (b ≡ false) × (guarded b store next ≡ next)
unfolding guarded
guarded-made true store next h = absurd (cc)
guarded-made false store next h = (refl, refl)

module _ {R : Type 0} ⦃git : Git R⦄ where
  -- The marks that may be about the day of a state, and the times of what they stand on.
  abbrev recent_marks : Setting → Text → Change → Store R → List Version
  recent_marks s key previous store =
      marks_since (local_day previous.timestamp s.zone) (async_versions store key) s.zone

  abbrev mark_times : Setting → Text → Change → Store R → List (Text × ℕ)
  mark_times s key previous store =
      commit_times store (revisions_in (recent_marks s key previous store))

  abbrev day_has_mark : Setting → Text → Change → Store R → Bool
  day_has_mark s key previous store =
      day_is_marked (local_day previous.timestamp s.zone) (recent_marks s key previous store)
        (mark_times s key previous store) s.zone

  -- What a mark that was made tells: it reads as a version on the commit of the last state of the
  -- day before the newest one among the states read; no version stood on that state, no automatic
  -- one that is recent enough stands on a state of that day, and the highest version holds another.
  pub record IsDayMark (s : Setting) (daily : Bool) (key name : Text) (before after : Store R)
      : Type 0 where
    pub switched_on : daily ≡ true
    pub newest : Change
    pub earlier : List Change
    pub at : ℕ
    pub previous : Change
    pub window : list_changes before s.cached key (some recent_states) ≡ some (newest ∷ earlier)
    pub day_ends :
        Answers newest.timestamp s.zone
          (map (λ (c : Change). c.timestamp) (newest ∷ earlier))
          (some at)
    pub on : get_elem? (newest ∷ earlier) at ≡ some previous
    pub state_unmarked :
        All (λ (v : Version). v.revision ≢ previous.revision) (async_versions before key)
    pub day_unmarked :
        All
          (IsElsewhere s.zone
            (local_day previous.timestamp s.zone)
            (mark_times s key previous before))
          (recent_marks s key previous before)
    pub state_new :
        is_duplicate before key previous.revision
          (highest (λ (v : Version). v.name) key (async_versions before key))
        ≡ false
    pub named :
        name
        ≡ (next_versions before key).at_level
            (automatic_level key (names_of (async_versions before key)))
    pub version : Version
    pub reads : read_version key name after ≡ done version
    pub marks : resolve before previous.revision ≡ some version.revision

  record WasMarked (s : Setting) (key name : Text) (previous : Change) (before after : Store R)
      : Type 0 where
    state_unmarked :
        All (λ (v : Version). v.revision ≢ previous.revision) (async_versions before key)
    day_unmarked :
        All
          (IsElsewhere s.zone
            (local_day previous.timestamp s.zone)
            (mark_times s key previous before))
          (recent_marks s key previous before)
    state_new :
        is_duplicate before key previous.revision
          (highest (λ (v : Version). v.name) key (async_versions before key))
        ≡ false
    named :
        name
        ≡ (next_versions before key).at_level
            (automatic_level key (names_of (async_versions before key)))
    version : Version
    reads : read_version key name after ≡ done version
    marks : resolve before previous.revision ≡ some version.revision

  async_make-marks :
      (s : Setting) (key : Text) (level : Level) (change : Change) (store : Store R) (name : Text)
      → is_nil change.revision ≡ false
      → (async_make s key level change store).made ≡ some name
      → (v : Version) × (read_version key name (async_make s key level change store).after ≡ done v)
        × (resolve store change.revision ≡ some v.revision)
  unfolding async_make marked
  async_make-marks s key level change store name id h =
      async_create_version-marks key (level_text level) _ _ change.revision none s.now s.cached
        store name id (created_of-eq-some _ name h)

  mark_state-WasMarked :
      (s : Setting) (key name : Text) (previous : Change) (store : Store R)
      → is_nil previous.revision ≡ false
      → (mark_state s key previous store).made ≡ some name
      → WasMarked s key name previous store (mark_state s key previous store).after
  unfolding mark_state
  mark_state-WasMarked s key name previous store id h =
      let found = async_versions store key in
      let level = automatic_level key (names_of found) in
      let made = async_make s key level previous store in
      let third =
        guarded
          (is_duplicate store key previous.revision (highest (λ (v : Version). v.name) key found))
          store made in
      let second = guarded (day_has_mark s key previous store) store third in
      let (one, e) = guarded-made (any_revision previous.revision found) store second h in
      let (two, e') =
        guarded-made (day_has_mark s key previous store) store third
          (ap (λ (m : Marked R). m.made) (sym e) ∙ h) in
      let (three, e'') =
        guarded-made
          (is_duplicate store key previous.revision (highest (λ (v : Version). v.name) key found))
          store made (ap (λ (m : Marked R). m.made) (sym (e ∙ e')) ∙ h) in
      let all : mark_state s key previous store ≡ made = e ∙ (e' ∙ e'') in
      let went = ap (λ (m : Marked R). m.made) (sym all) ∙ h in
      let (named, _) = async_make-named s key level previous store name went in
      let (v, reads, marks) = async_make-marks s key level previous store name id went in
      record {
        state_unmarked = any_revision-All previous.revision found one;
        day_unmarked =
            day_is_marked-All (local_day previous.timestamp s.zone)
              (recent_marks s key previous store) (mark_times s key previous store) s.zone two;
        state_new = three;
        named = named;
        version = v;
        reads = ap (λ (m : Marked R). read_version key name m.after) all ∙ reads;
        marks = marks;
      }

  mark_at-made :
      (s : Setting) (key name : Text) (newest : List Change) (o : Option ℕ) (store : Store R)
      → (mark_at s key newest o store).made ≡ some name
      → (at : ℕ) × (previous : Change) × (o ≡ some at)
        × (get_elem? newest at ≡ some previous)
        × (mark_at s key newest o store ≡ mark_state s key previous store)
  unfolding mark_at
  mark_at-made s key name newest none store h = absurd (cc)
  mark_at-made s key name newest (some at) store h = elim (Option-cases (get_elem? newest at)) [
    | inl e ↦
        let out : mark_at s key newest (some at) store ≡ unmarked store = rw (e, mark_at) refl in
        let none_made : none ≡ some name = ap (λ (m : Marked R). m.made) (sym out) ∙ h in
        absurd (cc)
    | inr (previous, e) ↦ (at, previous, refl, e, rw (e, mark_at) refl)
  ]

  mark_newest-IsDayMark :
      (s : Setting) (key name : Text) (o : Option (List Change)) (store : Store R)
      → list_changes store s.cached key (some recent_states) ≡ o
      → HasIds o
      → (mark_newest s key o store).made ≡ some name
      → IsDayMark s true key name store (mark_newest s key o store).after
  unfolding mark_newest end_of_previous_day
  mark_newest-IsDayMark s key name none store w ids h = absurd (cc)
  mark_newest-IsDayMark s key name (some []) store w ids h =
      let (few, e) = guarded-made (ltb 0 2) store (mark_at s key [] none store) h in absurd (cc)
  mark_newest-IsDayMark s key name (some (newest ∷ earlier)) store w ids h =
      let changes = newest ∷ earlier in
      let stamps = map (λ (c : Change). c.timestamp) changes in
      let (many, e) =
        guarded-made (ltb (length changes) 2) store
          (mark_at s key changes (end_of_previous_day stamps s.zone) store) h in
      let (at, previous, ends, on, marks) =
        mark_at-made s key name changes (end_of_previous_day stamps s.zone) store
          (ap (λ (m : Marked R). m.made) (sym e) ∙ h) in
      let all : mark_newest s key (some changes) store ≡ mark_state s key previous store =
        e ∙ marks in
      let m =
        mark_state-WasMarked s key name previous store
          (All-get_elem? (λ (c : Change). is_nil c.revision ≡ false) changes at previous ids on)
          (ap (λ (m : Marked R). m.made) (sym all) ∙ h) in
      record {
        switched_on = refl;
        newest = newest;
        earlier = earlier;
        at = at;
        previous = previous;
        window = w;
        day_ends = subst (Answers newest.timestamp s.zone stamps) ends (
            end_of_previous_day-Answers newest.timestamp (map (λ (c : Change). c.timestamp) earlier)
              s.zone);
        on = on;
        state_unmarked = m.state_unmarked;
        day_unmarked = m.day_unmarked;
        state_new = m.state_new;
        named = m.named;
        version = m.version;
        reads = ap (λ (m : Marked R). read_version key name m.after) all ∙ m.reads;
        marks = m.marks;
      }

  -- Where `_async_mark_day` makes a version, the option is on, and the version reads as a mark on the
  -- commit of the last state of the day before the newest, among the newest states read, which all
  -- have an id: no version stood on that state, none of the automatic ones that are recent enough is
  -- known to stand on a state of its day, and the highest numbered one does not hold the same. The
  -- name is the next one.
  pub async_mark_day-IsDayMark :
      (s : Setting) (daily : Bool) (key name : Text) (store : Store R)
      → HasIds (list_changes store s.cached key (some recent_states))
      → (async_mark_day s daily key store).made ≡ some name
      → IsDayMark s daily key name store (async_mark_day s daily key store).after
  unfolding async_mark_day
  async_mark_day-IsDayMark s false key name store ids h = absurd (cc)
  async_mark_day-IsDayMark s true key name store ids h =
      mark_newest-IsDayMark s key name _ store refl ids h
