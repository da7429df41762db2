-- ===== src/Store/Versions.antt =====
-- store.py: `create_version`, `retitle_version`, `read_version`, `remove_version`, `list_versions`.
-- Each operation answers with the store behind it, also where it raises.
pub mod Parts
pub mod Answered
pub mod Retitle
pub mod Remove
pub mod Create
pub mod Refused
pub mod Named
pub mod Fence
pub mod Kept
use ha_dashboard_history.Base.{
  ℕ, ◌≡◌, Bool, true, false, List, [], ◌∷◌, map, Option, none, some, Text, ltb, sort_by,
  if◌then◌else◌,
}
use ha_dashboard_history.Git.{Git, Object, TagObject, commit, tag, blob, tree}
use ha_dashboard_history.Records.{Version}
use ha_dashboard_history.Store.Types.{
  Store, Sentence, Answer, raised, done, ◌>>=◌, or_raise, unless, ensure, refuse_if_forget_pending,
  version_of_another, version_unknown, made_by_hand, revision_unknown, ref_format, NoneType,
  no_value,
}
use ha_dashboard_history.Store.Resolve.{resolve_in}
use ha_dashboard_history.Store.Tags.{
  version_body, version_words, version_from, owns, colliding_name, or_head, restored_description,
}

-- The store behind an operation, with its answer.
pub record Outcome (R : Type 0) (A : Type 0) : Type 0 where
  pub after : Store R
  pub answer : Answer A

-- What was written becomes the repository of the store; where nothing was, the store stays.
abbrev pub written : {R A : Type 0} → Store R → Answer (R × A) → Outcome R A
written store (raised s) = record { after = store; answer = raised s }
written store (done (repo, a)) = record {
  after = record store { repo = some repo };
  answer = done a;
}

abbrev pub the_tag : Text → Object → Answer TagObject
the_tag name (tag t) = done t
the_tag name _ = raised (made_by_hand name)

-- `fresh`, before its id is worked out
unfoldable pub with_words : TagObject → Text → Text → TagObject
unfolding restored_description version_body
with_words t title description = record t {
  message = some (version_body title (restored_description t.message description));
  signature = none;
}

-- Whether `_each_tag` gives a ref: of one dashboard, or of all.
unfoldable pub wanted : Option Text → Text → Bool
unfolding owns
wanted none ref = true
wanted (some key) ref = owns ref key

module _ {R : Type 0} ⦃git : Git R⦄ where
  -- `_refuse_colliding_name`
  unfoldable pub refuse_colliding_name : Option R → Text → Option Sentence
  unfolding colliding_name
  refuse_colliding_name none name = none
  refuse_colliding_name (some repo) name = colliding_name name (git.tag_names repo)

  -- `_marked_commit`
  unfoldable pub marked_commit : Option R → Option Text → Answer Text
  unfolding resolve_in or_head
  marked_commit none revision = raised (revision_unknown (or_head revision))
  marked_commit (some repo) revision =
      or_raise (revision_unknown (or_head revision)) (resolve_in repo (or_head revision))

  -- `porcelain.tag_create`, in the repository that `_ensure` left
  unfoldable pub tag_create : Option R → Text → Text → Text → ℕ → Answer (R × NoneType)
  tag_create none name body marked now = raised (ref_format name)
  tag_create (some repo) name body marked now = elim (git.create_tag name body marked now repo) [
    | none ↦ raised (ref_format name)
    | some repo ↦ done (repo, no_value)
  ]

  -- `_create_version`
  unfoldable pub tagged : Store R → Text → Text → Text → Option Text → ℕ → Answer (R × NoneType)
  unfolding refuse_colliding_name marked_commit tag_create version_body
  tagged store name title description revision now =
      unless (refuse_colliding_name store.repo name) (
        marked_commit store.repo revision >>= λ marked.
        tag_create store.repo name (version_body title description) marked now)

  unfoldable pub create_version :
      Text → Text → Text → Option Text → ℕ → Store R → Outcome R NoneType
  unfolding ensure refuse_if_forget_pending tagged
  create_version name title description revision now store =
      let store = ensure store in
      written store
        (unless (refuse_if_forget_pending store) (tagged store name title description revision now))

  -- What a store knows under a name.
  abbrev pub object_in : Store R → Text → Option Object
  object_in store name = elim store.repo [ none ↦ none | some repo ↦ git.object repo name ]

  -- `repo[repo.refs[ref]] if repo is not None else None`
  abbrev pub tag_target : Option R → Text → Option Object
  tag_target none name = none
  tag_target (some repo) name = git.tag_at repo name

  -- `_tag_at_locked`; the ref is the name behind `refs/tags/`.
  unfoldable pub tag_at_locked : Option R → Text → Text → Answer Object
  unfolding owns
  tag_at_locked repo key name =
      if owns name key
      then or_raise (version_unknown name) (tag_target repo name)
      else raised (version_of_another key name)

  -- What `retitle_version` writes and answers, in a repository that is there.
  unfoldable pub rewritten : Option R → Text → TagObject → Answer (R × Version)
  unfolding version_from version_words
  rewritten none name fresh = raised (version_unknown name)
  rewritten (some repo) name fresh =
      done (git.put_tag name fresh repo, version_from name (tag fresh))

  unfoldable pub retitle_version : Text → Text → Text → Text → Store R → Outcome R Version
  unfolding refuse_if_forget_pending tag_at_locked with_words rewritten
  retitle_version key name title description store = written store (
      unless (refuse_if_forget_pending store) (
        tag_at_locked store.repo key name >>= λ old.
        the_tag name old >>= λ t. rewritten store.repo name (with_words t title description)))

  unfoldable pub read_version : Text → Text → Store R → Answer Version
  unfolding tag_at_locked version_from
  read_version key name store =
      tag_at_locked store.repo key name >>= λ target. done (version_from name target)

  -- `del repo.refs[ref]`
  unfoldable pub dropped : Option R → Text → Version → Answer (R × Version)
  dropped none name version = raised (version_unknown name)
  dropped (some repo) name version = done (git.drop_tag name repo, version)

  unfoldable pub remove_version : Text → Text → Store R → Outcome R Version
  unfolding refuse_if_forget_pending tag_at_locked version_from dropped
  remove_version key name store = written store (
      unless (refuse_if_forget_pending store) (
        tag_at_locked store.repo key name >>= λ target.
        dropped store.repo name (version_from name target)))

  -- `_each_tag`, each tag as a version
  unfoldable pub each_tag : R → Option Text → List Text → List Version
  unfolding version_from wanted
  each_tag repo key [] = []
  each_tag repo key (ref ∷ refs) =
      let rest = each_tag repo key refs in
      if wanted key ref
      then elim (git.tag_at repo ref) [ none ↦ rest | some target ↦ version_from ref target ∷ rest ]
      else rest

  -- Newest first, by a stable sort.
  unfoldable pub list_versions : Store R → Option Text → List Version
  unfolding each_tag sort_by
  list_versions store key = elim store.repo [
    | none ↦ []
    | some repo ↦
        sort_by (λ v w. ltb w.timestamp v.timestamp) (each_tag repo key (git.tag_names repo))
  ]
