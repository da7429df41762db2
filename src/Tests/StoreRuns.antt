-- ===== src/Tests/StoreRuns.antt =====
-- Runs of the theorems about the store, the operations on versions and the automatic versions.
use ha_dashboard_history.Base.{
  ℕ, ◌≡◌, ◌≢◌, refl, ap, ◌↔◌, true, false, ◌∷◌, [], map, some, none, List, sym, Text, strip, arith,
  list_beq, after_prefix, contains, option_beq, list_eq, nat_eq, ◌==◌, is_space, codes,
}
use ha_dashboard_history.Base.Int.{pos}
use ha_dashboard_history.Records.{Version}
use ha_dashboard_history.Git.{Object, tag}
use ha_dashboard_history.Versions.Number.{version_name}
use ha_dashboard_history.Store.Types.{Store, done}
use ha_dashboard_history.Store.Resolve.{resolve_in, peel, commit_behind}
use ha_dashboard_history.Store.Resolve.Ends.{commit_behind-Answers}
use ha_dashboard_history.Store.Tags.{colliding_name}
use ha_dashboard_history.Store.Tags.Free.{colliding_name-IsFree}
use ha_dashboard_history.Store.Tags.Below.{IsFree}
use ha_dashboard_history.Store.Versions.{read_version, retitle_version, remove_version}
use ha_dashboard_history.Store.Versions.Retitle.{IsRenamed, retitle_version-IsRenamed}
use ha_dashboard_history.Store.Versions.Remove.{IsRemoved, remove_version-IsRemoved}
use ha_dashboard_history.Store.Versions.Fence.{versions-fenced}
use ha_dashboard_history.Store.Race.{Attempt, retrying, IsTrusted, retrying-IsTrusted}
use ha_dashboard_history.Store.Index.{RevisionIndex, read_entry, built_index, carried_forward}
use ha_dashboard_history.Store.Index.Walked.{revisions_of}
use ha_dashboard_history.Store.Index.Extended.{AnswersAlike}
use ha_dashboard_history.Store.Changes.{page, indexed_revisions, index_at}
use ha_dashboard_history.Store.Changes.Behind.{indexed_revisions-behind, index_at-AnswersAlike}
use ha_dashboard_history.Operations.Create.Above.{IsAbove, async_create_version-IsAbove}
use ha_dashboard_history.Versions.Number.{minor, parse, match_numbers}
use ha_dashboard_history.Operations.Create.{level_of, next_versions, async_create_version}
use ha_dashboard_history.Operations.Create.Made.{async_create_version-IsMade}
use ha_dashboard_history.Operations.Create.Made.{IsMade}
use ha_dashboard_history.Milestones.{Setting, unmarked, async_floor_for, async_mark_day}
use ha_dashboard_history.Milestones.Kept.{here, next, floor, mark, Reach-keeps}
use ha_dashboard_history.Milestones.Floor.{async_floor_for-once}
use ha_dashboard_history.Milestones.Mark.{IsDayMark, async_mark_day-IsDayMark}
use ha_dashboard_history.Tests.TwoCommits.{
  Repo, Words, earlier, later, commit_of, sha_of, object_named, names_in, two_of, tag_from, tag_in,
}
use ha_dashboard_history.Versions.Digits.{show, take_number, take_digits}
use ha_dashboard_history.Versions.Days.{same_day}
use ha_dashboard_history.Tests.Repository.{two_commits, entry_of}

abbrev home : Text
home = codes "home"

abbrev bare : Store Repo
bare = record { repo = some []; checkpoint = false }

abbrev start_words : Words
start_words = record {
  marks = earlier;
  message = some (codes "Start\n\ndashboard-history: automatic");
  tag_time = 50;
  tagger = codes "ha";
  signature = none;
}

abbrev started : Store Repo
started = record { repo = some ((codes "home/v1.0.0", start_words) ∷ []); checkpoint = false }

abbrev start_version : Version
start_version = record {
  name = codes "home/v1.0.0";
  revision = sha_of earlier;
  title = codes "Start";
  description = codes "dashboard-history: automatic";
  timestamp = 50;
  annotated = true;
}

abbrev setting : Setting
setting = record { now = 100; zone = λ t. pos 0; cached = none }

async_create_version-IsMade_example :
    (v : Version) × IsMade home
      (codes "Week")
      (codes "words")
      (codes "home/v0.0.1")
      100
      bare
      (async_create_version home
        (codes "patch")
        (codes "Week")
        (codes "words")
        (some (codes "HEAD"))
        none
        100
        none
        bare).after
      v
unfolding async_create_version list_beq strip is_space object_named names_in show two_of
async_create_version-IsMade_example =
    async_create_version-IsMade home (codes "patch") (codes "Week") (codes "words")
      (some (codes "HEAD")) none 100 none bare (codes "home/v0.0.1") refl refl

colliding_name-IsFree_example :
    (colliding_name (codes "home/v1.0.0") (codes "solar/v1.0.0" ∷ []) ≡ none)
    ↔ IsFree (codes "home/v1.0.0") (codes "solar/v1.0.0" ∷ [])
colliding_name-IsFree_example =
    colliding_name-IsFree (codes "home/v1.0.0") (codes "solar/v1.0.0" ∷ [])

abbrev renamed_version : Version
renamed_version = record start_version {
  title = codes "Begin";
  description = codes "dashboard-history: automatic\nwords";
}

solar≢home : codes "solar" ≢ home
solar≢home e = absurd (cc)

v2≢v1 : codes "home/v2.0.0" ≢ codes "home/v1.0.0"
unfolding list_beq
v2≢v1 e = let no : false ≡ true = ap (λ t. t == codes "home/v1.0.0") e in absurd (cc)

retitle_version-IsRenamed_example :
    (v : Version) × IsRenamed home
      (codes "home/v1.0.0")
      (codes "Begin")
      (codes "words")
      home
      (codes "home/v2.0.0")
      started
      start_version
      v
unfolding read_version after_prefix contains tag_in list_beq strip is_space
retitle_version-IsRenamed_example =
    retitle_version-IsRenamed home (codes "home/v1.0.0") (codes "Begin") (codes "words") home
      (codes "home/v2.0.0") started start_version refl refl refl refl v2≢v1

remove_version-IsRemoved_example :
    IsRemoved home
      (codes "home/v1.0.0")
      home
      (codes "home/v2.0.0")
      (commit_of earlier)
      started
      start_version
unfolding read_version after_prefix contains tag_in list_beq strip is_space object_named
remove_version-IsRemoved_example =
    remove_version-IsRemoved home (codes "home/v1.0.0") home (codes "home/v2.0.0")
      (commit_of earlier) started start_version refl refl v2≢v1 refl

versions-fenced_example :
    (read_version
        (codes "solar")
        (codes "solar/v1.0.0")
        (retitle_version home (codes "home/v1.0.0") (codes "Begin") (codes "words") started).after
      ≡ read_version (codes "solar") (codes "solar/v1.0.0") started)
    × (read_version
          (codes "solar")
          (codes "solar/v1.0.0")
          (remove_version home (codes "home/v1.0.0") started).after
        ≡ read_version (codes "solar") (codes "solar/v1.0.0") started)
versions-fenced_example =
    versions-fenced home (codes "home/v1.0.0") (codes "Begin") (codes "words") (codes "solar")
      (codes "solar/v1.0.0") started (λ e. solar≢home (sym e))

abbrev one_tag : Repo
one_tag = (codes "home/v1.0.0", start_words) ∷ []

abbrev the_tag_there : Object
the_tag_there = tag (tag_from (codes "home/v1.0.0") start_words)

commit_behind-Answers_example :
    peel 2 one_tag the_tag_there ≡ some (commit_behind one_tag (codes "refs/tags/home/v1.0.0"))
unfolding object_named
commit_behind-Answers_example =
    commit_behind-Answers one_tag (codes "refs/tags/home/v1.0.0") the_tag_there 2 refl (omega arith)

abbrev carried_one : RevisionIndex
carried_one =
    carried_forward (built_index (sha_of earlier) (entry_of earlier ∷ [])) (sha_of later)
      (read_entry (entry_of later) ∷ [])

index_at-AnswersAlike_example :
    AnswersAlike home carried_one
      (built_index (sha_of later) (entry_of later ∷ entry_of earlier ∷ []))
unfolding list_beq index_at
index_at-AnswersAlike_example =
    index_at-AnswersAlike one_tag home (sha_of earlier) (sha_of later) (entry_of later ∷ [])
      (entry_of earlier ∷ []) carried_one refl refl refl refl

indexed_revisions-behind_example :
    indexed_revisions one_tag
      (some (built_index (sha_of later) (entry_of later ∷ entry_of earlier ∷ [])))
      home
      (some (codes "HEAD"))
      none
      0
      false
    ≡ page (revisions_of home (map read_entry (entry_of earlier ∷ [])))
unfolding contains list_beq resolve_in strip is_space object_named
indexed_revisions-behind_example =
    indexed_revisions-behind one_tag (sha_of later) home (codes "HEAD") [] (entry_of earlier ∷ [])
      (entry_of later) none 0 false (refl, (refl, tt)) refl

abbrev attempts : List (Attempt ℕ)
attempts =
    record { result = some 1; moved = some (some (codes "b")); unfinished = true }
    ∷ record { result = some 2; moved = some (some (codes "b")); unfinished = false }
    ∷ []

retrying-IsTrusted_example : IsTrusted 2 (some (some (codes "a"))) attempts
unfolding retrying option_beq list_beq
retrying-IsTrusted_example = retrying-IsTrusted (some (some (codes "a"))) attempts 2 refl

abbrev solar_started : Store Repo
solar_started = record {
  repo = some ((codes "solar/v1.0.0", start_words) ∷ []);
  checkpoint = false;
}

abbrev solar_version : Version
solar_version = record start_version { name = codes "solar/v1.0.0" }

Reach-keeps_example :
    read_version
      (codes "solar")
      (codes "solar/v1.0.0")
      (async_mark_day setting true home (async_floor_for setting home solar_started).after).after
    ≡ done solar_version
unfolding read_version after_prefix contains tag_in list_beq strip is_space
Reach-keeps_example =
    Reach-keeps (codes "solar") (codes "solar/v1.0.0") solar_version {start = solar_started}
      (next (next here (floor setting home)) (mark setting true home)) refl

async_floor_for-once_example :
    (codes "home/v1.0.0" ≡ version_name home (1, 0, 0))
    × (async_floor_for setting home (async_floor_for setting home bare).after
        ≡ unmarked (async_floor_for setting home bare).after)
unfolding async_floor_for names_in strip is_space object_named two_of
async_floor_for-once_example =
    async_floor_for-once setting setting home bare (codes "home/v1.0.0") refl

async_mark_day-IsDayMark_example :
    IsDayMark setting true home
      (codes "home/v1.0.0")
      bare
      (async_mark_day setting true home bare).after
unfolding async_mark_day strip is_space object_named same_day names_in two_of
async_mark_day-IsDayMark_example =
    async_mark_day-IsDayMark setting true home (codes "home/v1.0.0") bare (refl, (refl, tt)) refl

async_create_version-IsAbove_example : IsAbove home (1, 0, 0) (codes "home/v1.1.0")
unfolding level_of list_beq strip is_space read_version after_prefix contains tag_in object_named
    names_in next_versions show two_of parse match_numbers take_number take_digits
    async_create_version
async_create_version-IsAbove_example =
    async_create_version-IsAbove home (codes "minor") (codes "Week") (codes "words")
      (some (codes "HEAD")) none 100 none started (codes "home/v1.1.0") minor (codes "home/v1.0.0")
      start_version (1, 0, 0) refl refl refl refl
