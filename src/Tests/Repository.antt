-- ===== src/Tests/Repository.antt =====
-- The git library of TwoCommits as an instance of the interface, and a store on it.
use ha_dashboard_history.Base.{
  ℕ, ◌<◌, ◌≡◌, ◌≢◌, refl, ap, sym, ◌∙◌, ◌||◌, List, [], ◌∷◌, ◌++◌, Option, none, some, Text, codes,
  contains, rstrip, false, strip, is_nil, lookup, list_eq, nat_eq, ◌==◌, after_prefix,
  after_prefix-append, arith, take,
}
use ha_dashboard_history.Git.{Git, Object, Commit, TagObject, Entry, commit, tag, blob, id_of}
use ha_dashboard_history.Tests.TwoCommits.{
  Two, earlier, later, sha_of, commit_of, Words, Repo, tag_from, tag_found, tag_in, kind_of,
  of_kind, object_named, levels, blob_named, names_in, two_of, made_tag, rewritten_tag, without,
}
use ha_dashboard_history.Tests.Kinds.{kind-commit_id, kind-blob}
use ha_dashboard_history.Tests.Kinds.{kind-commit}
use ha_dashboard_history.Tests.Kinds.{kind-tag}
use ha_dashboard_history.Tests.Kinds.{kind-id_of}
use ha_dashboard_history.Tests.Kinds.{some_injective}
use ha_dashboard_history.Tests.Kinds.{kind_of-commit}
use ha_dashboard_history.Tests.Kinds.{kind_of-tag}
use ha_dashboard_history.Tests.TagFacts.{
  tag_in-cons_same, tag_in-cons_other, made_tag-some, two_of-sha_of, blank_end, lookup-without_self,
  lookup-without_other, contains-names_in,
}

abbrev pub entry_of : Two → Entry
entry_of c = record {
  commit = commit_of c;
  changes =
      (record {
        old = record { path = some (codes "home.yaml"); sha = codes "b1" };
        new = record { path = some (codes "home.yaml"); sha = codes "b2" };
      }
        ∷ [])
      ∷ [];
}

abbrev pub at_most : Option ℕ → List Entry → List Entry
at_most none entries = entries
at_most (some n) entries = take n entries

-- What a walk gives: what is ahead of the first commit, or both.
abbrev pub entries_of : Option Text → List Entry
entries_of none = entry_of later ∷ entry_of earlier ∷ []
entries_of (some exclude) = entry_of later ∷ []

-- Each commit holds one state of the dashboard `home`.
abbrev pub state_in : Text → Text → Option Text
state_in tree_id path = some (blob_named tree_id)

rewritten_tag-found :
    (name : Text) (t : TagObject) (r : Repo) (o : Option Words) (old : TagObject)
    → tag_found name o ≡ some (tag old)
    → t.marked ≡ old.marked
    → (sha : Text) × (tag_in (rewritten_tag name t r o) name ≡ some (tag (record t { sha = sha })))
rewritten_tag-found name t r none old h e = absurd (cc)
rewritten_tag-found name t r (some w) old h e =
    let is : tag (tag_from name w) ≡ tag old = some_injective h in
    let same : tag_from name w ≡ old = cc in
    let marked : sha_of w.marks ≡ t.marked = ap (λ (t : TagObject). t.marked) same ∙ sym e in
    (
      codes "refs/tags/" ++ name,
      tag_in-cons_same name _ r
          ∙ ap (λ m. some (tag (record t { sha = codes "refs/tags/" ++ name; marked = m }))) marked,
    )

pub rewritten_tag-other :
    (name : Text) (t : TagObject) (r : Repo) (o : Option Words) (other : Text)
    → other ≢ name
    → tag_in (rewritten_tag name t r o) other ≡ tag_in r other
rewritten_tag-other name t r none other d = refl
rewritten_tag-other name t r (some w) other d = tag_in-cons_other name other _ r d

pub law_depth-marked :
    (r : Repo) (name : Text) (t : TagObject)
    → object_named r name ≡ some (tag t)
    → levels (kind_of t.marked) < levels (kind_of name)
unfolding object_named
law_depth-marked r name t h =
    let (one, at) = kind-tag r (kind_of name) t h in
    let (c, marked) = at in
    let zero_levels : levels (kind_of t.marked) ≡ 0 =
      ap levels (ap kind_of marked ∙ kind_of-commit c) in
    omega (arith, one, zero_levels)

pub law_depth-id_of :
    (r : Repo) (name : Text) (o : Object)
    → object_named r name ≡ some o
    → levels (kind_of (id_of o)) ≡ levels (kind_of name)
unfolding object_named
law_depth-id_of r name o h = (kind-id_of r (kind_of name) o h).1

pub law_object-id_of :
    (r : Repo) (name : Text) (o : Object)
    → object_named r name ≡ some o
    → object_named r (id_of o) ≡ some o
unfolding object_named
law_object-id_of r name o h = (kind-id_of r (kind_of name) o h).0

pub law_object-tag_at :
    (r : Repo) (name : Text) → object_named r (codes "refs/tags/" ++ name) ≡ tag_in r name
unfolding object_named of_kind
law_object-tag_at r name = ap (of_kind r) (kind_of-tag name)

pub law_blob_id_of :
    (r : Repo) (name sha text : Text)
    → object_named r name ≡ some (blob sha text)
    → sha ≡ blob_named text
unfolding object_named
law_blob_id_of r name sha text h = kind-blob r (kind_of name) sha text h

pub law_blob_id_injective : (one other : Text) → blob_named one ≡ blob_named other → one ≡ other
law_blob_id_injective one other h = some_injective (
    sym (after_prefix-append (codes "blob:") one)
    ∙ (ap (after_prefix (codes "blob:")) h ∙ after_prefix-append (codes "blob:") other))

pub law_create_tag :
    (name message marked : Text) (now : ℕ) (r s : Repo)
    → made_tag name message now r (two_of marked) ≡ some s
    → (t : TagObject) × (end : Text) × (tag_in s name ≡ some (tag t))
      × (t.message ≡ some (message ++ end))
      × (rstrip end ≡ [])
      × (t.marked ≡ marked)
      × (t.tag_time ≡ now)
law_create_tag name message marked now r s h =
    let (c, w, which, is, marks, said, time) =
      made_tag-some name message now r s (two_of marked) h in
    (
      tag_from name w,
      b'\n' ∷ [],
      ap (λ l. tag_in l name) is ∙ tag_in-cons_same name w r,
      said,
      blank_end,
      ap sha_of marks ∙ two_of-sha_of marked c which,
      time,
    )

pub law_create_tag_other :
    (name message marked : Text) (now : ℕ) (r s : Repo) (other : Text)
    → made_tag name message now r (two_of marked) ≡ some s
    → other ≢ name
    → tag_in s other ≡ tag_in r other
law_create_tag_other name message marked now r s other h d =
    let (c, w, which, is, marks, said, time) =
      made_tag-some name message now r s (two_of marked) h in
    ap (λ l. tag_in l other) is ∙ tag_in-cons_other name other w r d

pub law_tag_names-create_tag :
    (name message marked : Text) (now : ℕ) (r s : Repo) (other : Text)
    → made_tag name message now r (two_of marked) ≡ some s
    → contains other (names_in s) ≡ (other == name || contains other (names_in r))
unfolding names_in contains
law_tag_names-create_tag name message marked now r s other h =
    let (c, w, which, is, marks, said, time) =
      made_tag-some name message now r s (two_of marked) h in
    ap (λ l. contains other (names_in l)) is

pub law_object_commit :
    (r s : Repo) (name : Text) (c : Commit)
    → object_named r name ≡ some (commit c)
    → object_named s name ≡ some (commit c)
unfolding object_named
law_object_commit r s name c h = kind-commit r s (kind_of name) c h

pub law_names-init : names_in [] ≡ []
unfolding names_in
law_names-init = refl

pub law_put_tag :
    (name : Text) (old t : TagObject) (r : Repo)
    → tag_in r name ≡ some (tag old)
    → t.marked ≡ old.marked
    → (sha : Text) × (tag_in (rewritten_tag name t r (lookup name r)) name
        ≡ some (tag (record t { sha = sha })))
unfolding tag_in
law_put_tag name old t r h e = rewritten_tag-found name t r (lookup name r) old h e

pub law_drop_tag : (name : Text) (r : Repo) → tag_in (without name r) name ≡ none
unfolding tag_in
law_drop_tag name r = ap (tag_found name) (lookup-without_self name r)

pub law_drop_tag_other :
    (name : Text) (r : Repo) (other : Text)
    → other ≢ name
    → tag_in (without name r) other ≡ tag_in r other
unfolding tag_in
law_drop_tag_other name r other d = ap (tag_found other) (lookup-without_other name other r d)

pub law_commit_id :
    (r : Repo) (name : Text) (c : Commit)
    → object_named r name ≡ some (commit c)
    → (strip c.sha ≡ c.sha) × (is_nil c.sha ≡ false)
unfolding object_named
law_commit_id r name c h = kind-commit_id r (kind_of name) c h

instance abbrev pub two_commits : Git Repo
two_commits = record {
  init = [];
  tag_names = names_in;
  tag_at = tag_in;
  object = object_named;
  with_prefix = λ r start. [];
  entry_at = λ r tree_id path. state_in tree_id path;
  items = λ r tree_id. some (codes "home.yaml" ∷ codes "meta" ∷ []);
  blob_id = blob_named;
  walk = λ r w. some (at_most w.max_entries (entries_of w.exclude));
  notes = λ r. [];
  create_tag = λ name message marked now r. made_tag name message now r (two_of marked);
  put_tag = λ name t r. rewritten_tag name t r (lookup name r);
  drop_tag = without;
  depth = λ r name. levels (kind_of name);
  depth-marked = law_depth-marked;
  depth-id_of = law_depth-id_of;
  object-id_of = law_object-id_of;
  object-tag_at = law_object-tag_at;
  commit_id = law_commit_id;
  blob_id_of = law_blob_id_of;
  blob_id_injective = law_blob_id_injective;
  tag_at-create_tag = law_create_tag;
  tag_at-create_tag_other = law_create_tag_other;
  tag_names-create_tag = law_tag_names-create_tag;
  object-create_tag = λ name message marked now r s c h k. law_object_commit r s c.sha c k;
  tag_names-tag_at = contains-names_in;
  tag_names-init = law_names-init;
  tag_at-put_tag = law_put_tag;
  tag_at-put_tag_other = λ name t r other d. rewritten_tag-other name t r (lookup name r) other d;
  tag_at-drop_tag = law_drop_tag;
  tag_at-drop_tag_other = law_drop_tag_other;
  object-drop_tag = λ name r c k. law_object_commit r (without name r) c.sha c k;
}
