-- ===== src/Git.antt =====
-- The git library (dulwich) and the file system under the repository, as store.py uses them: an
-- interface of operations and of what the library documents about them.
use ha_dashboard_history.Base.{
  ℕ, ◌<◌, ◌≡◌, ◌≢◌, true, ◌||◌, List, ◌++◌, Option, none, some, Text, codes, contains, strip,
  is_nil, false, rstrip, [], ◌==◌, list_eq, nat_eq,
}

pub record Commit : Type 0 where
  pub sha : Text
  pub commit_time : ℕ
  pub message : Text
  pub tree : Text

-- An annotated tag. A missing message is none.
pub record TagObject : Type 0 where
  pub sha : Text
  pub message : Option Text
  pub marked : Text
  pub tag_time : ℕ
  pub tagger : Text
  pub signature : Option Text

-- An object of the database. A blob is its id and its text, a tree its id.
pub data Object : Type 0 where
  commit : Commit → Object
  tag : TagObject → Object
  blob : Text → Text → Object
  tree : Text → Object

-- `obj.id`
abbrev pub id_of : Object → Text
id_of (commit c) = c.sha
id_of (tag t) = t.sha
id_of (blob sha text) = sha
id_of (tree sha) = sha

-- A change of a path between a commit and its parent: what stood there, and what stands there now.
pub record Side : Type 0 where
  pub path : Option Text
  pub sha : Text

pub record TreeChange : Type 0 where
  pub old : Side
  pub new : Side

-- An entry of a walk. A merge has a list of changes for each parent.
pub record Entry : Type 0 where
  pub commit : Commit
  pub changes : List (List TreeChange)

-- Which commits a walk starts at, which it leaves out with their ancestors, which paths it asks
-- for, and how many entries it gives at most.
pub record Walk : Type 0 where
  pub include : Option Text
  pub exclude : Option Text
  pub paths : Option (List Text)
  pub max_entries : Option ℕ

pub record Git (R : Type 0) : Type 0 where
  -- `porcelain.init` where there is no repository
  pub init : R
  -- the keys of `repo.refs.as_dict(b"refs/tags")`
  pub tag_names : R → List Text
  -- `repo[repo.refs[b"refs/tags/" + name]]`, none for a KeyError
  pub tag_at : R → Text → Option Object
  -- `repo[name]`, none for a KeyError or a ValueError
  pub object : R → Text → Option Object
  -- `repo.object_store.iter_prefix`
  pub with_prefix : R → Text → List Text
  -- the blob that `lookup_path` finds in a tree, none for a KeyError
  pub entry_at : R → Text → Text → Option Text
  -- the paths of `tree.items()`, none for a KeyError
  pub items : R → Text → Option (List Text)
  -- `Blob.from_string(text).id`
  pub blob_id : Text → Text
  -- `repo.get_walker`, none where it raises
  pub walk : R → Walk → Option (List Entry)
  -- `porcelain.notes_list`
  pub notes : R → List (Text × Text)
  -- `porcelain.tag_create` at a time, none for a RefFormatError
  pub create_tag : Text → Text → Text → ℕ → R → Option R
  -- `object_store.add_object(t)`, and the ref of the name set to it, under the hash of the tag
  pub put_tag : Text → TagObject → R → R
  -- `del repo.refs[b"refs/tags/" + name]`
  pub drop_tag : Text → R → R
  -- how many tags stand on each other at a name: hashes of hashes are never circular
  pub depth : R → Text → ℕ
  -- A tag names an object with fewer tags below it, by its id as by its name.
  pub depth-marked :
      (r : R) (name : Text) (t : TagObject)
      → object r name ≡ some (tag t)
      → depth r t.marked < depth r name
  pub depth-id_of :
      (r : R) (name : Text) (o : Object) → object r name ≡ some o → depth r (id_of o) ≡ depth r name
  -- An object answers to its id, and a tag to the whole name of its ref.
  pub object-id_of :
      (r : R) (name : Text) (o : Object) → object r name ≡ some o → object r (id_of o) ≡ some o
  pub object-tag_at : (r : R) (name : Text) → object r (codes "refs/tags/" ++ name) ≡ tag_at r name
  -- The id of a commit is a hash in hexadecimal digits: it is not empty and has no spaces around it.
  pub commit_id :
      (r : R) (name : Text) (c : Commit)
      → object r name ≡ some (commit c)
      → (strip c.sha ≡ c.sha) × (is_nil c.sha ≡ false)
  -- A blob's id is the hash of its text.
  pub blob_id_of :
      (r : R) (name sha text : Text) → object r name ≡ some (blob sha text) → sha ≡ blob_id text
  pub blob_id_injective : (one other : Text) → blob_id one ≡ blob_id other → one ≡ other
  -- A new tag: its fields, with the line end that the library may add to the message, and that
  -- every other ref and each commit stays.
  pub tag_at-create_tag :
      (name message marked : Text) (now : ℕ) (r s : R)
      → create_tag name message marked now r ≡ some s
      → (t : TagObject) × (end : Text) × (tag_at s name ≡ some (tag t))
        × (t.message ≡ some (message ++ end))
        × (rstrip end ≡ [])
        × (t.marked ≡ marked)
        × (t.tag_time ≡ now)
  pub tag_at-create_tag_other :
      (name message marked : Text) (now : ℕ) (r s : R) (other : Text)
      → create_tag name message marked now r ≡ some s
      → other ≢ name
      → tag_at s other ≡ tag_at r other
  pub tag_names-create_tag :
      (name message marked : Text) (now : ℕ) (r s : R) (other : Text)
      → create_tag name message marked now r ≡ some s
      → contains other (tag_names s) ≡ (other == name || contains other (tag_names r))
  pub object-create_tag :
      (name message marked : Text) (now : ℕ) (r s : R) (c : Commit)
      → create_tag name message marked now r ≡ some s
      → object r c.sha ≡ some (commit c)
      → object s c.sha ≡ some (commit c)
  -- A ref that names an object is among the names.
  pub tag_names-tag_at :
      (r : R) (name : Text) (o : Object)
      → tag_at r name ≡ some o
      → contains name (tag_names r) ≡ true
  pub tag_names-init : tag_names init ≡ []
  -- A tag rewritten to mark what it marked, and a removed one, which leaves the commits.
  pub tag_at-put_tag :
      (name : Text) (old t : TagObject) (r : R)
      → tag_at r name ≡ some (tag old)
      → t.marked ≡ old.marked
      → (sha : Text) × (tag_at (put_tag name t r) name ≡ some (tag (record t { sha = sha })))
  pub tag_at-put_tag_other :
      (name : Text) (t : TagObject) (r : R) (other : Text)
      → other ≢ name
      → tag_at (put_tag name t r) other ≡ tag_at r other
  pub tag_at-drop_tag : (name : Text) (r : R) → tag_at (drop_tag name r) name ≡ none
  pub tag_at-drop_tag_other :
      (name : Text) (r : R) (other : Text)
      → other ≢ name
      → tag_at (drop_tag name r) other ≡ tag_at r other
  pub object-drop_tag :
      (name : Text) (r : R) (c : Commit)
      → object r c.sha ≡ some (commit c)
      → object (drop_tag name r) c.sha ≡ some (commit c)
