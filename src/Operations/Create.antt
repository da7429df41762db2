-- ===== src/Operations/Create.antt =====
-- operations.py: `_state_at`, `async_next_versions` and `async_create_version`.
pub mod Made
pub mod Marked
pub mod Above
pub mod Planned
use ha_dashboard_history.Base.{
  ℕ, Bool, true, false, List, [], ◌∷◌, map, Option, none, some, Text, codes, contains, strip, take,
  is_nil, list_eq, nat_eq, ◌==◌, if◌then◌else◌,
}
use ha_dashboard_history.Records.{Change, Version}
use ha_dashboard_history.Git.{Git}
use ha_dashboard_history.Versions.Number.{Level, patch, minor, major, Candidates, candidates}
use ha_dashboard_history.Store.Types.{Store, Sentence, Answer, raised, done, NoneType}
use ha_dashboard_history.Store.Resolve.{resolve}
use ha_dashboard_history.Store.Versions.{Outcome, create_version, list_versions}
use ha_dashboard_history.Store.Index.{RevisionIndex}
use ha_dashboard_history.Store.Reads.{read_at, matching_revisions, list_changes}

-- The sentences that an operation answers with, less those of the store.
pub data Error : Type 0 where
  unknown_level no_recorded_state unknown_revision : Text → Error
  title_needed unrecorded_state : Error
  not_there_at : Text → Text → Error
  by_store : Sentence → Error

-- An answer without the value asked for, an exception of the store, or the value.
pub data Reply {ℓ} (A : Type ℓ) : Type ℓ where
  failed : Error → Reply A
  crashed : Reply A
  replied : A → Reply A

infixl 5 ◌>>=◌
abbrev pub ◌>>=◌ {ℓ κ} : {A : Type ℓ} {B : Type κ} → Reply A → (A → Reply B) → Reply B
failed e >>= f = failed e
crashed >>= f = crashed
replied a >>= f = f a

-- `level not in versioning.LEVELS`
unfoldable pub level_of : Text → Option Level
level_of text =
    if text == codes "patch"
    then some patch
    else if text == codes "minor"
    then some minor
    else if text == codes "major"
    then some major
    else none

abbrev pub known_level : Text → Option Level → Reply Level
known_level text none = failed (unknown_level text)
known_level text (some level) = replied level

-- `if not title.strip()`
unfoldable pub titled : Text → Reply Text
titled title = if is_nil (strip title) then failed title_needed else replied title

-- A store behind an operation, with its reply.
pub record After (R A : Type 0) : Type 0 where
  pub after : Store R
  pub reply : Reply A

abbrev pub created : {R : Type 0} → Text → Outcome R NoneType → After R Text
created name outcome = record {
  after = outcome.after;
  reply = elim outcome.answer [ raised s ↦ failed (by_store s) | done _ ↦ replied name ];
}

abbrev pub names_of : List Version → List Text
names_of [] = []
names_of (v ∷ versions) = v.name ∷ names_of versions

module _ {R : Type 0} ⦃git : Git R⦄ where
  -- `_same_as_live`, with `dump(live)` as a text
  unfoldable pub same_as_live : Store R → Text → List Text → Text → List Text
  unfolding matching_revisions
  same_as_live store key revisions live = matching_revisions store key revisions live

  -- The live configuration is none where it cannot be read.
  unfoldable pub is_stale : Store R → Text → Text → Option Text → Bool
  unfolding same_as_live
  is_stale store key revision none = false
  is_stale store key revision (some live) =
      if contains revision (same_as_live store key (revision ∷ []) live) then false else true

  -- The newest entry of the dashboard, if it is what the dashboard holds.
  unfoldable pub newest_revision : Store R → Text → Option Text → Option (List Change) → Reply Text
  unfolding is_stale
  newest_revision store key live none = crashed
  newest_revision store key live (some []) = failed (no_recorded_state key)
  newest_revision store key live (some (newest ∷ changes)) =
      if is_stale store key newest.revision live
      then failed unrecorded_state
      else replied newest.revision

  -- `if not revision: …`
  unfoldable pub chosen_revision :
      Store R → Option RevisionIndex → Text → Option Text → Option Text → Reply Text
  unfolding newest_revision list_changes
  chosen_revision store cached key none live =
      newest_revision store key live (list_changes store cached key (some 1))
  chosen_revision store cached key (some revision) live =
      if is_nil revision
      then newest_revision store key live (list_changes store cached key (some 1))
      else replied revision

  -- `_state_at`: the whole revision and its text
  unfoldable pub state_at : Store R → Text → Text → Reply (Text × Text)
  unfolding resolve read_at
  state_at store key revision = elim (resolve store revision) [
    | none ↦ failed (unknown_revision revision)
    | some full ↦ elim (read_at store key full) [
      | none ↦ failed (not_there_at key (take 10 full))
      | some text ↦ replied (full, text)
    ]
  ]

  -- `async_next_versions`
  unfoldable pub next_versions : Store R → Text → Candidates
  unfolding candidates list_versions
  next_versions store key = candidates key (names_of (list_versions store (some key)))

  -- The revision that is marked, and the name it is given.
  unfoldable pub planned :
      Store R
      → Option RevisionIndex
      → Text
      → Text
      → Text
      → Option Text
      → Option Text
      → Reply (Text × Text)
  unfolding level_of titled chosen_revision state_at next_versions
  planned store cached key level title revision live =
      known_level level (level_of level) >>= λ level. titled title >>= λ title.
      chosen_revision store cached key revision live >>= λ revision.
      state_at store key revision >>= λ state.
      replied (state.0, (next_versions store key).at_level level)

  unfoldable pub carried_out : Store R → Text → Text → ℕ → Reply (Text × Text) → After R Text
  unfolding create_version
  carried_out store title description now (failed e) = record { after = store; reply = failed e }
  carried_out store title description now crashed = record { after = store; reply = crashed }
  carried_out store title description now (replied (full, name)) =
      created name (create_version name title description (some full) now store)

  -- `async_create_version`
  unfoldable pub async_create_version :
      Text
      → Text
      → Text
      → Text
      → Option Text
      → Option Text
      → ℕ
      → Option RevisionIndex
      → Store R
      → After R Text
  unfolding planned carried_out
  async_create_version key level title description revision live now cached store =
      carried_out store title description now (planned store cached key level title revision live)
