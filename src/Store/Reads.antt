-- ===== src/Store/Reads.antt =====
-- store.py: what is read at a revision, and the recorded states as callers get them.
use ha_dashboard_history.Base.{
  ℕ, Bool, false, List, [], ◌∷◌, ◌++◌, Option, none, some, Text, codes, contains, text_lt, sort_by,
  list_eq, nat_eq, option_eq, ◌==◌, option_beq, if◌then◌else◌,
}
use ha_dashboard_history.Records.{Change}
use ha_dashboard_history.Git.{Git, Object, commit, blob}
use ha_dashboard_history.Store.Types.{Store}
use ha_dashboard_history.Store.Resolve.{resolve_in}
use ha_dashboard_history.Store.Paths.{yaml, before_suffix}
use ha_dashboard_history.Store.Index.{RevisionIndex}
use ha_dashboard_history.Store.Race.{Attempt, Reading, returned, retrying}
use ha_dashboard_history.Store.Changes.{Page, page, built_page}

-- `dict.fromkeys(revisions)`: each once, where it is first.
unfoldable pub once_each : List Text → List Text → List Text
once_each seen [] = []
once_each seen (r ∷ revisions) =
    let rest = once_each (r ∷ seen) revisions in
    let same = once_each seen revisions in if contains r seen then same else r ∷ rest

abbrev pub text_of : Option Object → Option Text
text_of (some (blob sha text)) = some text
text_of _ = none

abbrev pub tree_of : Option Object → Option Text
tree_of (some (commit c)) = some c.tree
tree_of _ = none

abbrev pub is_same : Option Text → Option Text → Bool
is_same none second = false
is_same (some first) second = some first == second

abbrev pub commit_time_of : Option Object → Option ℕ
commit_time_of (some (commit c)) = some c.commit_time
commit_time_of _ = none

-- `[path[: -len(".yaml")] for … if path.endswith(".yaml")]`
unfoldable pub stems : List Text → List Text
unfolding before_suffix
stems [] = []
stems (path ∷ paths) =
    let rest = stems paths in
    elim (before_suffix yaml path) [ none ↦ rest | some stem ↦ stem ∷ rest ]

unfoldable pub listed : Option (List Text) → List Text
unfolding stems sort_by
listed none = []
listed (some paths) = sort_by text_lt (stems paths)

abbrev pub page_result : Page (List Change) → Option (List Change)
page_result (page found) = some found
page_result _ = none

abbrev pub reading_result : Reading (List Change) → Option (List Change)
reading_result (returned found) = some found
reading_result _ = none

module _ {R : Type 0} ⦃git : Git R⦄ where
  -- `_blob_at`
  unfoldable pub blob_at : R → Text → Text → Option Text
  unfolding resolve_in
  blob_at repo path revision = elim (resolve_in repo revision) [
    | none ↦ none
    | some resolved ↦ elim (tree_of (git.object repo resolved)) [
      | none ↦ none
      | some tree_id ↦ git.entry_at repo tree_id path
    ]
  ]

  -- `_read_from`; the blob that a tree names is there.
  unfoldable pub read_from : R → Text → Text → Option Text
  unfolding blob_at
  read_from repo path revision = elim (blob_at repo path revision) [
    | none ↦ none
    | some blob_id ↦ text_of (git.object repo blob_id)
  ]

  unfoldable pub read_at : Store R → Text → Text → Option Text
  unfolding read_from
  read_at store key revision = elim store.repo [
    | none ↦ none
    | some repo ↦ read_from repo (key ++ yaml) revision
  ]

  unfoldable pub same_state : Store R → Text → Text → Text → Bool
  unfolding blob_at
  same_state store key one other = elim store.repo [
    | none ↦ false
    | some repo ↦ is_same (blob_at repo (key ++ yaml) one) (blob_at repo (key ++ yaml) other)
  ]

  unfoldable pub matching : R → Text → Text → List Text → List Text
  unfolding blob_at option_beq
  matching repo path wanted [] = []
  matching repo path wanted (revision ∷ revisions) =
      let rest = matching repo path wanted revisions in
      if blob_at repo path revision == some wanted then revision ∷ rest else rest

  unfoldable pub matching_revisions : Store R → Text → List Text → Text → List Text
  unfolding matching once_each
  matching_revisions store key revisions text = elim store.repo [
    | none ↦ []
    | some repo ↦ matching repo (key ++ yaml) (git.blob_id text) (once_each [] revisions)
  ]

  abbrev pub timed : R → Text → Option Text → Option ℕ
  timed repo revision none = none
  timed repo revision (some resolved) = commit_time_of (git.object repo resolved)

  unfoldable pub times_of : R → List Text → List (Text × ℕ)
  unfolding resolve_in
  times_of repo [] = []
  times_of repo (revision ∷ revisions) =
      let rest = times_of repo revisions in
      elim (timed repo revision (resolve_in repo revision)) [
        | none ↦ rest
        | some time ↦ (revision, time) ∷ rest
      ]

  unfoldable pub commit_times : Store R → List Text → List (Text × ℕ)
  unfolding times_of once_each
  commit_times store revisions = elim store.repo [
    | none ↦ []
    | some repo ↦ times_of repo (once_each [] revisions)
  ]

  -- `list_dashboards`
  unfoldable pub dashboards_in : R → List Text
  unfolding resolve_in listed
  dashboards_in repo = elim (resolve_in repo (codes "HEAD")) [
    | none ↦ []
    | some head ↦ elim (tree_of (git.object repo head)) [
      | none ↦ []
      | some tree_id ↦ listed (git.items repo tree_id)
    ]
  ]

  unfoldable pub list_dashboards : Store R → List Text
  unfolding dashboards_in
  list_dashboards store = elim store.repo [ none ↦ [] | some repo ↦ dashboards_in repo ]

  -- One run of `build` in a repository that nothing else changes meanwhile.
  unfoldable pub undisturbed : Store R → R → Page (List Change) → Attempt (List Change)
  unfolding resolve_in
  undisturbed store repo found = record {
    result = page_result found;
    moved = some (resolve_in repo (codes "HEAD"));
    unfinished = store.checkpoint;
  }

  -- `list_changes` without a cursor, where nothing goes on beside it; none where it raises.
  unfoldable pub list_changes :
      Store R → Option RevisionIndex → Text → Option ℕ → Option (List Change)
  unfolding undisturbed retrying built_page resolve_in
  list_changes store cached key limit = elim store.repo [
    | none ↦ some []
    | some repo ↦
        let attempt =
          undisturbed store repo (built_page repo cached key limit none none 0 store.checkpoint) in
        reading_result
          (retrying (some (resolve_in repo (codes "HEAD"))) (attempt ∷ attempt ∷ attempt ∷ []))
  ]
