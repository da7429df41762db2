-- ===== src/Store/Touched.antt =====
-- store.py: `_touched`, what one entry of a walk says about the dashboards that it changed.
use ha_dashboard_history.Base.{
  List, [], ◌∷◌, Option, none, some, Text, after_prefix, contains, nat_eq, if◌then◌else◌,
}
use ha_dashboard_history.Git.{Side, TreeChange, Entry}
use ha_dashboard_history.Store.Paths.{before_suffix, key_of, yaml, meta}
use ha_dashboard_history.Store.Dict.{add, set_default}

pub record Touched : Type 0 where
  pub keys : List Text
  pub names : List Text
  pub removed_meta : List (Text × Text)

-- `if b"/" not in path: names.add(…)`
unfoldable pub with_name : Text → List Text → List Text
unfolding add before_suffix
with_name path names =
    if contains b'/' path
    then names
    else elim (before_suffix yaml path) [ none ↦ names | some stem ↦ add stem names ]

-- The body of `for side in (one.old, one.new)`, at a path; the key of it is none where the path
-- does not end as a state's does.
unfoldable pub note_path : Text → Touched → Touched
unfolding key_of with_name add
note_path path found = elim (key_of path) [
  | none ↦ found
  | some key ↦ record found { keys = add key found.keys; names = with_name path found.names }
]

unfoldable pub note_side : Side → Touched → Touched
unfolding note_path
note_side side found = elim side.path [ none ↦ found | some path ↦ note_path path found ]

-- The key of a `meta/<key>.yaml`.
unfoldable pub meta_key : Text → Option Text
unfolding before_suffix after_prefix
meta_key path = elim (after_prefix meta path) [ none ↦ none | some rest ↦ before_suffix yaml rest ]

-- Where a deletion took `meta/<key>.yaml` away.
unfoldable pub note_removal : TreeChange → Touched → Touched
unfolding meta_key set_default
note_removal one found = elim one.old.path [
  | none ↦ found
  | some path ↦ elim (meta_key path) [
    | none ↦ found
    | some gone ↦ elim one.new.path [
      | some _ ↦ found
      | none ↦ record found { removed_meta = set_default gone one.old.sha found.removed_meta }
    ]
  ]
]

unfoldable pub note_changes : List TreeChange → Touched → Touched
unfolding note_side note_removal
note_changes [] found = found
note_changes (one ∷ changes) found =
    note_changes changes (note_removal one (note_side one.new (note_side one.old found)))

unfoldable pub note_lists : List (List TreeChange) → Touched → Touched
unfolding note_changes
note_lists [] found = found
note_lists (changes ∷ lists) found = note_lists lists (note_changes changes found)

-- `_touched`
unfoldable pub touched : Entry → Touched
unfolding note_lists
touched entry = note_lists entry.changes (record { keys = []; names = []; removed_meta = [] })
