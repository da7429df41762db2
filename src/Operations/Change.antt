-- ===== src/Operations/Change.antt =====
-- operations.py: `_version_dict`, `async_retitle_version`, `_async_returns`, `async_remove_version`.
use ha_dashboard_history.Base.{
  ℕ, Bool, true, false, List, [], ◌∷◌, Option, none, some, Text, strip, is_nil, list_eq, nat_eq,
  ◌==◌, if◌then◌else◌,
}
use ha_dashboard_history.Records.{Change, Version}
use ha_dashboard_history.Git.{Git}
use ha_dashboard_history.Versions.Number.{highest}
use ha_dashboard_history.Versions.Description.{read_description}
use ha_dashboard_history.Versions.Days.{Zone, recent_states, would_be_marked_again}
use ha_dashboard_history.Store.Types.{Store, Answer, raised, done}
use ha_dashboard_history.Store.Versions.{
  Outcome, retitle_version, remove_version, read_version, list_versions,
}
use ha_dashboard_history.Store.Index.{RevisionIndex}
use ha_dashboard_history.Store.Reads.{list_changes}
use ha_dashboard_history.Operations.Create.{
  Reply, failed, crashed, replied, After, title_needed, by_store, ◌>>=◌,
}

pub record VersionDict : Type 0 where
  pub name : Text
  pub revision : Text
  pub title : Text
  pub description : Text
  pub automatic : Bool
  pub timestamp : ℕ
  pub annotated : Bool

unfoldable pub version_dict : Version → VersionDict
unfolding read_description
version_dict version =
    let (description, automatic) = read_description version.description in
    record {
      name = version.name;
      revision = version.revision;
      title = version.title;
      description = description;
      automatic = automatic;
      timestamp = version.timestamp;
      annotated = version.annotated;
    }

-- What the removal of a version answers: its words before anything goes, with whether it is the
-- highest and whether it would come back, or the words of what was taken.
pub data Removal : Type 0 where
  preview : VersionDict → Bool → Bool → Removal
  applied : VersionDict → Removal

-- The reply of a call of the store whose sentences are answers.
abbrev pub reply_of {ℓ} : {A : Type ℓ} → Answer A → Reply A
reply_of (raised s) = failed (by_store s)
reply_of (done a) = replied a

abbrev pub is_named : Text → Option Version → Bool
is_named name none = false
is_named name (some top) = top.name == name

-- Whether the day rule, run over the states read, lands on the revision.
unfoldable pub returns_from : Text → ℕ → Zone → Option (List Change) → Reply Bool
unfolding would_be_marked_again
returns_from revision now zone none = crashed
returns_from revision now zone (some []) = replied false
returns_from revision now zone (some (newest ∷ recent)) =
    replied (would_be_marked_again revision (newest ∷ recent) now zone)

module _ {R : Type 0} ⦃git : Git R⦄ where
  unfoldable pub retitled : Outcome R Version → After R VersionDict
  unfolding version_dict
  retitled outcome = record {
    after = outcome.after;
    reply = reply_of outcome.answer >>= λ v. replied (version_dict v);
  }

  unfoldable pub async_retitle_version : Text → Text → Text → Text → Store R → After R VersionDict
  unfolding retitle_version retitled
  async_retitle_version key name title description store =
      let label = strip title in
      if is_nil label
      then record { after = store; reply = failed title_needed }
      else retitled (retitle_version key name label (strip description) store)

  unfoldable pub async_returns :
      Store R → Option RevisionIndex → Text → Text → Bool → ℕ → Zone → Reply Bool
  unfolding list_changes returns_from
  async_returns store cached key revision automatic now zone =
      if automatic
      then returns_from revision now zone (list_changes store cached key (some recent_states))
      else replied false

  -- The answer without `confirm`.
  unfoldable pub previewed :
      Store R → Option RevisionIndex → Text → ℕ → Zone → Version → Reply Removal
  unfolding version_dict list_versions highest async_returns
  previewed store cached key now zone version =
      let words = version_dict version in
      let top = highest (λ (v : Version). v.name) key (list_versions store (some key)) in
      async_returns store cached key words.revision words.automatic now zone >>= λ returns.
      replied (preview words (is_named version.name top) returns)

  unfoldable pub async_remove_version :
      Text → Text → Bool → ℕ → Zone → Option RevisionIndex → Store R → After R Removal
  unfolding remove_version read_version previewed version_dict
  async_remove_version key name false now zone cached store = record {
    after = store;
    reply = reply_of (read_version key name store) >>= previewed store cached key now zone;
  }
  async_remove_version key name true now zone cached store =
      let outcome = remove_version key name store in
      record {
        after = outcome.after;
        reply = reply_of outcome.answer >>= λ v. replied (applied (version_dict v));
      }
