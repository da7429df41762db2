-- ===== src/Store/Index.antt =====
-- store.py: the revision index, which says for each dashboard which commits touched it, and where
-- each commit stands in the walk.
pub mod Walked
pub mod Distinct
pub mod Joined
pub mod Extended
pub mod Cursor
pub mod Places
use ha_dashboard_history.Base.{
  ℕ, suc, ◌+◌, Bool, true, false, List, [], ◌∷◌, ◌++◌, map, Option, none, some, Text, is_nil,
  length, lookup, ltb, list_eq, nat_eq, if◌then◌else◌,
}
use ha_dashboard_history.Git.{Entry}
use ha_dashboard_history.Store.Dict.{set_item, set_default, get_or, add}
use ha_dashboard_history.Store.Touched.{Touched, touched}

pub record RevisionIndex : Type 0 where
  pub head : Text
  pub by_key : List (Text × List Text)
  pub order : List (Text × ℕ)
  pub names : List Text
  pub removed_meta : List (Text × Text)

-- `for key in touched.keys: by_key.setdefault(key, []).append(revision)`
unfoldable pub append_each : List Text → Text → List (Text × List Text) → List (Text × List Text)
unfolding set_item get_or
append_each [] revision by_key = by_key
append_each (key ∷ keys) revision by_key =
    append_each keys revision (set_item key (get_or [] key by_key ++ (revision ∷ [])) by_key)

-- `names |= more`
unfoldable pub add_all : List Text → List Text → List Text
unfolding add
add_all [] names = names
add_all (a ∷ more) names = add_all more (add a names)

-- `for key, blob in items: removed_meta.setdefault(key, blob)`
unfoldable pub default_all : List (Text × Text) → List (Text × Text) → List (Text × Text)
unfolding set_default
default_all [] removed_meta = removed_meta
default_all ((key, blob) ∷ items) removed_meta =
    default_all items (set_default key blob removed_meta)

-- The body of the loop over a walk.
unfoldable pub index_entry : ℕ → Text → Touched → RevisionIndex → RevisionIndex
unfolding set_item append_each add_all default_all
index_entry position revision found index = record index {
  order = set_item revision position index.order;
  by_key = append_each found.keys revision index.by_key;
  names = add_all found.names index.names;
  removed_meta = default_all found.removed_meta index.removed_meta;
}

-- `for position, (revision, touched) in enumerate(…)`
unfoldable pub index_all : ℕ → List (Text × Touched) → RevisionIndex → RevisionIndex
unfolding index_entry
index_all position [] index = index
index_all position ((revision, found) ∷ entries) index =
    index_all (suc position) entries (index_entry position revision found index)

unfoldable pub read_entry : Entry → Text × Touched
unfolding touched
read_entry entry = (entry.commit.sha, touched entry)

abbrev pub empty_index : Text → RevisionIndex
empty_index head = record { head = head; by_key = []; order = []; names = []; removed_meta = [] }

-- `_built_index`, from the entries of the walk
unfoldable pub built_index : Text → List Entry → RevisionIndex
unfolding index_all read_entry
built_index head entries = index_all 0 (map read_entry entries) (empty_index head)

-- The loop that reads the walk ahead of the old HEAD: none where it meets what is indexed already.
unfoldable pub fresh_entries : List (Text × ℕ) → List Entry → Option (List (Text × Touched))
unfolding lookup read_entry
fresh_entries order [] = some []
fresh_entries order (entry ∷ entries) = elim (lookup entry.commit.sha order) [
  | some _ ↦ none
  | none ↦ elim (fresh_entries order entries) [
    | none ↦ none
    | some rest ↦ some (read_entry entry ∷ rest)
  ]
]

-- `{revision: position + len(fresh) for …}`
unfoldable pub slide : ℕ → List (Text × ℕ) → List (Text × ℕ)
slide n [] = []
slide n ((revision, position) ∷ order) = (revision, position + n) ∷ slide n order

-- `for key, revisions in arrived.items(): by_key[key] = revisions + by_key.get(key, [])`
unfoldable pub put_in_front :
    List (Text × List Text) → List (Text × List Text) → List (Text × List Text)
unfolding set_item get_or
put_in_front [] by_key = by_key
put_in_front ((key, revisions) ∷ arrived) by_key =
    put_in_front arrived (set_item key (revisions ++ get_or [] key by_key) by_key)

-- `{**cached, **newer}`
unfoldable pub overridden : List (Text × Text) → List (Text × Text) → List (Text × Text)
unfolding set_item
overridden cached [] = cached
overridden cached ((key, blob) ∷ newer) = overridden (set_item key blob cached) newer

-- What is there before the entries that arrived are read.
unfoldable pub ahead : RevisionIndex → Text → ℕ → RevisionIndex
unfolding slide
ahead cached head n = record {
  head = head;
  by_key = [];
  order = slide n cached.order;
  names = cached.names;
  removed_meta = [];
}

-- What `_extended_index` makes of the cached index and the entries that arrived.
unfoldable pub carried_forward : RevisionIndex → Text → List (Text × Touched) → RevisionIndex
unfolding index_all ahead put_in_front overridden
carried_forward cached head fresh =
    let arrived = index_all 0 fresh (ahead cached head (length fresh)) in
    record {
      head = head;
      by_key = put_in_front arrived.by_key cached.by_key;
      order = arrived.order;
      names = arrived.names;
      removed_meta = overridden cached.removed_meta arrived.removed_meta;
    }

-- `_extended_index`, from the walk ahead of the old HEAD, none where that raises
unfoldable pub extended_index : RevisionIndex → Text → Option (List Entry) → Option RevisionIndex
unfolding fresh_entries carried_forward
extended_index cached head none = none
extended_index cached head (some entries) = elim (fresh_entries cached.order entries) [
  | none ↦ none
  | some fresh ↦ if is_nil fresh then none else some (carried_forward cached head fresh)
]

-- `[r for r in revisions if index.order[r] > at]`; each revision of the index is in its order.
unfoldable pub older_than : ℕ → List (Text × ℕ) → List Text → List Text
unfolding get_or
older_than at order [] = []
older_than at order (r ∷ revisions) =
    let rest = older_than at order revisions in if ltb at (get_or 0 r order) then r ∷ rest else rest
