-- ===== src/Store/Changes.antt =====
-- store.py: the recorded states of a dashboard, from the index or from a walk of its own.
pub mod Behind
use ha_dashboard_history.Base.{
  ℕ, suc, ◌+◌, Bool, true, false, ◌&&◌, List, [], ◌∷◌, ◌++◌, map, Option, none, some, Text, codes,
  strip, lookup, ltb, take, list_eq, nat_eq, ◌==◌, if◌then◌else◌,
}
use ha_dashboard_history.Records.{Change}
use ha_dashboard_history.Git.{Git, Object, Commit, Entry, Walk, commit, tag, blob, tree}
use ha_dashboard_history.Store.Resolve.{resolve_in}
use ha_dashboard_history.Store.Paths.{yaml, meta}
use ha_dashboard_history.Store.Dict.{get_or}
use ha_dashboard_history.Store.Index.{RevisionIndex, built_index, extended_index, older_than}

-- `_change`
unfoldable pub change_from : Commit → List (Text × Text) → Option Text → Change
unfolding get_or
change_from c notes previous = record {
  revision = c.sha;
  timestamp = c.commit_time;
  message = strip c.message;
  description = get_or [] c.sha notes;
  previous = previous;
}

-- The id that follows in a walk.
abbrev next_of : List Entry → Option Text
next_of [] = none
next_of (entry ∷ entries) = some entry.commit.sha

-- The loop over a walk that holds one entry back: each is handed out with the next one.
unfoldable pub walked : List (Text × Text) → List Entry → List Change
unfolding change_from
walked notes [] = []
walked notes (entry ∷ entries) =
    change_from entry.commit notes (next_of entries) ∷ walked notes entries

-- The first entry is dropped where it is the cursor.
abbrev behind_cursor : Option Text → List Entry → List Entry
behind_cursor none entries = entries
behind_cursor (some cursor) [] = []
behind_cursor (some cursor) (entry ∷ entries) =
    if entry.commit.sha == cursor then entries else entry ∷ entries

-- One more than asked for, and two with a cursor.
abbrev entries_to_read : Option Text → Option ℕ → Option ℕ
entries_to_read cursor none = none
entries_to_read none (some limit) = some (limit + 1)
entries_to_read (some cursor) (some limit) = some (limit + 2)

abbrev first_of : List Text → Option Text
first_of [] = none
first_of (revision ∷ revisions) = some revision

abbrev with_change : Change → Option (List Change) → Option (List Change)
with_change change none = none
with_change change (some changes) = some (change ∷ changes)

abbrev pub or_build : Option RevisionIndex → Option RevisionIndex → Option RevisionIndex
or_build none built = built
or_build (some index) built = some index

-- `list(islice(found, limit))`, or all
abbrev pub sliced : Option ℕ → List Change → List Change
sliced none found = found
sliced (some limit) found = take limit found

-- What a page asked for behind a cursor may be.
pub data Page (A : Type 0) : Type 0 where
  unanswered stale racing : Page A
  page : A → Page A

abbrev pub paths_of : Text → List Text
paths_of key = (key ++ yaml) ∷ (meta ++ (key ++ yaml)) ∷ []

-- A cursor that resolves to nothing: older than the last `forget`, or never one.
unfoldable pub unknown_cursor : {A : Type 0} → Option ℕ → ℕ → Bool → A → Page A
unknown_cursor none generation unfinished empty = page empty
unknown_cursor (some before) generation unfinished empty =
    if ltb before generation then if unfinished then racing else stale else page empty

module _ {R : Type 0} ⦃git : Git R⦄ where
  -- The walk of `_walked_changes`; a repository without HEAD has none.
  unfoldable pub walk_from : R → Text → Option Text → Option ℕ → List Entry
  walk_from repo key cursor limit =
      elim (git.walk repo (record {
        include = cursor;
        exclude = none;
        paths = some (paths_of key);
        max_entries = entries_to_read cursor limit;
      })) [ none ↦ [] | some entries ↦ behind_cursor cursor entries ]

  -- `_walked_changes`
  unfoldable pub walked_changes :
      R → Text → Option ℕ → Option Text → Option ℕ → ℕ → Bool → Page (List Change)
  unfolding walk_from walked resolve_in unknown_cursor
  walked_changes repo key limit none before_generation generation unfinished =
      page (walked (git.notes repo) (walk_from repo key none limit))
  walked_changes repo key limit (some before) before_generation generation unfinished =
      elim (resolve_in repo before) [
        | none ↦ unknown_cursor before_generation generation unfinished []
        | some cursor ↦ page (walked (git.notes repo) (walk_from repo key (some cursor) limit))
      ]

  -- The index built anew, none where the walk raises.
  unfoldable pub timed_build : R → Text → Option RevisionIndex
  unfolding built_index
  timed_build repo head =
      elim (git.walk repo
        (record { include = none; exclude = none; paths = none; max_entries = none })) [
          | none ↦ none
          | some entries ↦ some (built_index head entries)
        ]

  unfoldable pub carried_index : R → RevisionIndex → Text → Option RevisionIndex
  unfolding extended_index
  carried_index repo cached head = extended_index cached head (
      git.walk repo (record {
        include = some head;
        exclude = some cached.head;
        paths = none;
        max_entries = none;
      }))

  -- `_revision_index`: what is cached, carried forward, or built anew.
  unfoldable pub index_at : R → Option RevisionIndex → Text → Option RevisionIndex
  unfolding timed_build carried_index
  index_at repo none head = timed_build repo head
  index_at repo (some cached) head =
      if cached.head == head
      then some cached
      else or_build (carried_index repo cached head) (timed_build repo head)

  unfoldable pub revision_index : R → Option RevisionIndex → Option RevisionIndex
  unfolding index_at resolve_in
  revision_index repo cached = elim (resolve_in repo (codes "HEAD")) [
    | none ↦ none
    | some head ↦ index_at repo cached head
  ]

  -- `_indexed_revisions`, of the index that `_revision_index` gives; unanswered is its None.
  unfoldable pub indexed_revisions :
      R → Option RevisionIndex → Text → Option Text → Option ℕ → ℕ → Bool → Page (List Text)
  unfolding get_or resolve_in unknown_cursor older_than
  indexed_revisions repo none key before before_generation generation unfinished = unanswered
  indexed_revisions repo (some index) key none before_generation generation unfinished =
      page (get_or [] key index.by_key)
  indexed_revisions repo (some index) key (some before) before_generation generation unfinished =
      elim (resolve_in repo before) [
        | none ↦ unknown_cursor before_generation generation unfinished []
        | some resolved ↦ elim (lookup resolved index.order) [
          | none ↦ unanswered
          | some at ↦ page (older_than at index.order (get_or [] key index.by_key))
        ]
      ]

  -- `_change(repo[revision], …)` for each revision; none where one is not there.
  unfoldable pub changes_at : R → List (Text × Text) → List Text → Option (List Change)
  unfolding change_from
  changes_at repo notes [] = some []
  changes_at repo notes (revision ∷ revisions) =
      let rest = changes_at repo notes revisions in
      elim (git.object repo revision) [
        | some (commit c) ↦ with_change (change_from c notes (first_of revisions)) rest
        | _ ↦ none
      ]

  -- `_each_change`; a revision of the index that is not there raises a KeyError.
  unfoldable pub each_change :
      R
      → Option RevisionIndex
      → Text
      → Option ℕ
      → Option Text
      → Option ℕ
      → ℕ
      → Bool
      → Page (List Change)
  unfolding indexed_revisions revision_index changes_at walked_changes
  each_change repo cached key limit before before_generation generation unfinished =
      elim (indexed_revisions repo (revision_index repo cached) key before before_generation
        generation unfinished) [
          | unanswered ↦
              walked_changes repo key limit before before_generation generation unfinished
          | stale ↦ stale
          | racing ↦ racing
          | page revisions ↦ elim (changes_at repo (git.notes repo) revisions) [
            | none ↦ racing
            | some changes ↦ page changes
          ]
        ]

  -- `build` of `list_changes`: one attempt at the page.
  unfoldable pub built_page :
      R
      → Option RevisionIndex
      → Text
      → Option ℕ
      → Option Text
      → Option ℕ
      → ℕ
      → Bool
      → Page (List Change)
  unfolding each_change
  built_page repo cached key limit before before_generation generation unfinished =
      elim (each_change repo cached key limit before before_generation generation unfinished) [
        | unanswered ↦ unanswered
        | stale ↦ stale
        | racing ↦ racing
        | page found ↦ page (sliced limit found)
      ]
