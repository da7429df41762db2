-- ===== src/Tests/TwoCommits.antt =====
-- A git library in which the facts of the interface hold: two commits of one dashboard, one blob for
-- each text, and annotated tags.
use ha_dashboard_history.Base.{
  ℕ, List, [], ◌∷◌, ◌++◌, Option, none, some, Text, codes, lookup, list_eq, nat_eq, ◌==◌, list_beq,
  after_prefix, if◌then◌else◌,
}
use ha_dashboard_history.Git.{Object, Commit, TagObject, commit, tag, blob}

pub data Two : Type 0 where
  earlier later : Two

abbrev pub sha_of : Two → Text
sha_of earlier = codes "aaaaaaaaaaaa"
sha_of later = codes "bbbbbbbbbbbb"

-- 4 and 5 September 2026, at noon.
abbrev pub commit_of : Two → Commit
commit_of earlier = record {
  sha = sha_of earlier;
  commit_time = 1788523200;
  message = codes "1 added";
  tree = codes "t1";
}
commit_of later = record {
  sha = sha_of later;
  commit_time = 1788609600;
  message = codes "1 moved";
  tree = codes "t2";
}

-- What a tag is, less its name and its id.
pub record Words : Type 0 where
  pub marks : Two
  pub message : Option Text
  pub tag_time : ℕ
  pub tagger : Text
  pub signature : Option Text

abbrev pub Repo : Type 0
Repo = List (Text × Words)

abbrev pub tag_from : Text → Words → TagObject
tag_from name w = record {
  sha = codes "refs/tags/" ++ name;
  message = w.message;
  marked = sha_of w.marks;
  tag_time = w.tag_time;
  tagger = w.tagger;
  signature = w.signature;
}

abbrev pub tag_found : Text → Option Words → Option Object
tag_found name none = none
tag_found name (some w) = some (tag (tag_from name w))

unfoldable pub tag_in : Repo → Text → Option Object
unfolding lookup
tag_in repo name = tag_found name (lookup name repo)

-- What a name may be a name of.
pub data Kind : Type 0 where
  of_commit : Two → Kind
  of_tag of_blob : Text → Kind
  of_nothing : Kind

abbrev pub or_blob : Option Text → Kind
or_blob none = of_nothing
or_blob (some text) = of_blob text

abbrev pub or_tag : Option Text → Kind → Kind
or_tag none other = other
or_tag (some name) other = of_tag name

unfoldable pub kind_of : Text → Kind
unfolding after_prefix list_beq
kind_of name =
    if name == sha_of earlier
    then of_commit earlier
    else if name == sha_of later
    then of_commit later
    else if name == codes "HEAD"
    then of_commit later
    else or_tag (after_prefix (codes "refs/tags/") name)
        (or_blob (after_prefix (codes "blob:") name))

abbrev pub blob_named : Text → Text
blob_named text = codes "blob:" ++ text

unfoldable pub of_kind : Repo → Kind → Option Object
unfolding tag_in
of_kind repo (of_commit c) = some (commit (commit_of c))
of_kind repo (of_tag name) = tag_in repo name
of_kind repo (of_blob text) = some (blob (blob_named text) text)
of_kind repo of_nothing = none

unfoldable pub object_named : Repo → Text → Option Object
unfolding kind_of of_kind
object_named repo name = of_kind repo (kind_of name)

abbrev pub levels : Kind → ℕ
levels (of_tag name) = 1
levels _ = 0

unfoldable pub names_in : Repo → List Text
names_in [] = []
names_in ((name, w) ∷ repo) = name ∷ names_in repo

-- The commit that an id names, if it is one.
unfoldable pub two_of : Text → Option Two
unfolding list_beq
two_of sha =
    if sha == sha_of earlier then some earlier else if sha == sha_of later then some later else none

abbrev pub made_tag : Text → Text → ℕ → Repo → Option Two → Option Repo
made_tag name message now repo none = none
made_tag name message now repo (some c) = some (
    (
      name,
      record {
        marks = c;
        message = some (message ++ (b'\n' ∷ []));
        tag_time = now;
        tagger = codes "ha";
        signature = none;
      },
    )
    ∷ repo)

-- What a tag that is there marks goes on being marked.
abbrev pub rewritten_tag : Text → TagObject → Repo → Option Words → Repo
rewritten_tag name t repo none = repo
rewritten_tag name t repo (some w) =
    (
      name,
      record {
        marks = w.marks;
        message = t.message;
        tag_time = t.tag_time;
        tagger = t.tagger;
        signature = t.signature;
      },
    )
    ∷ repo

unfoldable pub without : Text → Repo → Repo
unfolding list_beq
without name [] = []
without name ((other, w) ∷ repo) =
    let rest = without name repo in if name == other then rest else (other, w) ∷ rest
