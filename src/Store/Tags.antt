-- ===== src/Store/Tags.antt =====
-- store.py: versions, which are tags of the repository: made, renamed, read, removed, listed.
pub mod Words
pub mod Free
pub mod Below
use ha_dashboard_history.Base.{
  ℕ, ◌≡◌, Bool, true, false, ◌&&◌, not, List, [], ◌∷◌, ◌++◌, map, Option, none, some, Text, codes,
  after_prefix, strip, is_nil, contains, eqb, ltb, text_lt, sort_by, list_eq, nat_eq, if◌then◌else◌,
}
use ha_dashboard_history.Git.{Git, Object, Commit, TagObject, commit, tag, blob, tree, id_of}
use ha_dashboard_history.Records.{Version}
use ha_dashboard_history.Versions.Description.{read_description, automatic_description}
use ha_dashboard_history.Store.Types.{Sentence, version_exists, in_the_way}

-- `str.partition`: what stands before the first separator, and behind it.
unfoldable pub partition : Text → Text → Text × Text
partition separator [] = elim (after_prefix separator []) [
  | none ↦ ([], [])
  | some rest ↦ ([], rest)
]
partition separator (c ∷ s) =
    let (before, behind) = partition separator s in
    elim (after_prefix separator (c ∷ s)) [ none ↦ (c ∷ before, behind) | some rest ↦ ([], rest) ]

abbrev pub blank_line : Text
blank_line = b'\n' ∷ b'\n' ∷ []

unfoldable pub version_body : Text → Text → Text
version_body title description = title ++ (blank_line ++ description)

-- `message or b""`
abbrev pub or_empty : Option Text → Text
or_empty none = []
or_empty (some s) = s

unfoldable pub version_words : Option Text → Text × Text
unfolding partition
version_words message =
    let (title, description) = partition blank_line (or_empty message) in
    (strip title, strip description)

-- The commit time of what a tag without an object of its own points at, or 0.
abbrev pub time_of : Object → ℕ
time_of (commit c) = c.commit_time
time_of _ = 0

unfoldable pub version_from : Text → Object → Version
unfolding version_words
version_from name (tag t) =
    let (title, description) = version_words t.message in
    record {
      name = name;
      revision = t.marked;
      title = title;
      description = description;
      timestamp = t.tag_time;
      annotated = true;
    }
version_from name target = record {
  name = name;
  revision = id_of target;
  title = [];
  description = [];
  timestamp = time_of target;
  annotated = false;
}

-- `_owns`
unfoldable pub owns : Text → Text → Bool
owns ref key = elim (after_prefix (key ++ codes "/") ref) [
  | none ↦ false
  | some rest ↦ not (contains b'/' rest)
]

-- `"/".join(parts[:depth])` for each depth below the number of parts: what stands before a slash.
unfoldable pub parents : Text → List Text
parents [] = []
parents (c ∷ s) =
    let longer = map (λ p. c ∷ p) (parents s) in if eqb c b'/' then [] ∷ longer else longer

unfoldable pub first_in : List Text → List Text → Option Text
first_in existing [] = none
first_in existing (p ∷ ps) = if contains p existing then some p else first_in existing ps

-- `[one for one in existing if one.startswith(f"{name}/")]`
unfoldable pub names_below : Text → List Text → List Text
names_below name [] = []
names_below name (one ∷ existing) =
    let rest = names_below name existing in
    elim (after_prefix (name ++ codes "/") one) [ none ↦ rest | some _ ↦ one ∷ rest ]

abbrev pub below_sentence : Text → List Text → Option Sentence
below_sentence name [] = none
below_sentence name (first ∷ below) = some (in_the_way name first)

abbrev pub parent_sentence : Text → Option Text → Option Sentence → Option Sentence
parent_sentence name none later = later
parent_sentence name (some parent) later = some (in_the_way name parent)

-- `_refuse_colliding_name`, of the names that there are
unfoldable pub colliding_name : Text → List Text → Option Sentence
unfolding parents first_in names_below sort_by
colliding_name name existing =
    if contains name existing
    then some (version_exists name)
    else parent_sentence name (first_in existing (parents name))
        (below_sentence name (sort_by text_lt (names_below name existing)))

-- `revision or "HEAD"`
unfoldable pub or_head : Option Text → Text
or_head none = codes "HEAD"
or_head (some s) = if is_nil s then codes "HEAD" else s

-- The description that a renamed version is stored with: an automatic one keeps its marker.
unfoldable pub restored_description : Option Text → Text → Text
unfolding version_words
restored_description message description =
    if (read_description (version_words message).1).1
    then automatic_description description
    else description
