-- ===== src/Tests/Kinds.antt =====
-- What the names of the objects in TwoCommits are names of.
use ha_dashboard_history.Base.{
  strip, is_nil, false, subst, is_space, ℕ, ◌≡◌, refl, ap, sym, ◌∙◌, [], ◌++◌, Option, none, some,
  Text, codes, lookup, list_eq, nat_eq, list_beq, after_prefix,
}
use ha_dashboard_history.Git.{Object, Commit, TagObject, commit, tag, blob, id_of}
use ha_dashboard_history.Tests.TwoCommits.{
  Two, sha_of, commit_of, Words, Repo, tag_from, tag_found, tag_in, Kind, of_commit, of_nothing,
  of_tag, of_blob, earlier, later, kind_of, blob_named, of_kind, object_named, levels,
}

pub kind_of-tag : (name : Text) → kind_of (codes "refs/tags/" ++ name) ≡ of_tag name
unfolding kind_of after_prefix list_beq
kind_of-tag name = refl

pub kind_of-blob : (text : Text) → kind_of (blob_named text) ≡ of_blob text
unfolding kind_of after_prefix list_beq
kind_of-blob text = refl

pub kind_of-commit : (c : Two) → kind_of (sha_of c) ≡ of_commit c
unfolding kind_of after_prefix list_beq
kind_of-commit earlier = refl
kind_of-commit later = refl

pub some_injective {ℓ} : {A : Type ℓ} {a b : A} → some a ≡ some b → a ≡ b
some_injective h = cc

sha_of_commit : (c : Two) → (commit_of c).sha ≡ sha_of c
sha_of_commit earlier = refl
sha_of_commit later = refl

abbrev text_in : Object → Text
text_in (blob sha text) = text
text_in _ = []

pub object_named_of :
    (repo : Repo) (name : Text) (k : Kind)
    → kind_of name ≡ k
    → object_named repo name ≡ of_kind repo k
unfolding object_named
object_named_of repo name k h = ap (of_kind repo) h

-- An object, by what its name is a name of, answers to its id.
pub kind-id_of :
    (repo : Repo) (k : Kind) (o : Object)
    → of_kind repo k ≡ some o
    → (object_named repo (id_of o) ≡ some o) × (levels (kind_of (id_of o)) ≡ levels k)
unfolding of_kind tag_in
kind-id_of repo (of_commit c) o h =
    let e : commit (commit_of c) ≡ o = some_injective h in
    let kind : kind_of (id_of o) ≡ of_commit c =
      ap (λ x. kind_of (id_of x)) (sym e) ∙ (ap kind_of (sha_of_commit c) ∙ kind_of-commit c) in
    (object_named_of repo (id_of o) (of_commit c) kind ∙ h, ap levels kind)
kind-id_of repo (of_blob text) o h =
    let e : blob (blob_named text) text ≡ o = some_injective h in
    let kind : kind_of (id_of o) ≡ of_blob text =
      ap (λ x. kind_of (id_of x)) (sym e) ∙ kind_of-blob text in
    (object_named_of repo (id_of o) (of_blob text) kind ∙ h, ap levels kind)
kind-id_of repo of_nothing o h = absurd (cc)
kind-id_of repo (of_tag name) o h = by_words (lookup name repo) refl
  where
    by_words :
        (w : Option Words)
        → lookup name repo ≡ w
        → (object_named repo (id_of o) ≡ some o) × (levels (kind_of (id_of o)) ≡ 1)
    by_words none e = let out : none ≡ some o = ap (tag_found name) (sym e) ∙ h in absurd (cc)
    by_words (some w) e =
        let is : tag (tag_from name w) ≡ o = some_injective (ap (tag_found name) (sym e) ∙ h) in
        let kind : kind_of (id_of o) ≡ of_tag name =
          ap (λ x. kind_of (id_of x)) (sym is) ∙ kind_of-tag name in
        (object_named_of repo (id_of o) (of_tag name) kind ∙ h, ap levels kind)

-- A tag is found as a tag, and marks a commit.
pub kind-tag :
    (repo : Repo) (k : Kind) (t : TagObject)
    → of_kind repo k ≡ some (tag t)
    → (levels k ≡ 1) × ((c : Two) × (t.marked ≡ sha_of c))
unfolding of_kind tag_in
kind-tag repo (of_commit c) t h = absurd (cc)
kind-tag repo (of_blob text) t h = absurd (cc)
kind-tag repo of_nothing t h = absurd (cc)
kind-tag repo (of_tag name) t h = by_words (lookup name repo) refl
  where
    by_words :
        (w : Option Words)
        → lookup name repo ≡ w
        → ◌≡◌ {A = ℕ} 1 1 × ((c : Two) × (t.marked ≡ sha_of c))
    by_words none e = let out : none ≡ some (tag t) = ap (tag_found name) (sym e) ∙ h in absurd (cc)
    by_words (some w) e =
        let is : tag (tag_from name w) ≡ tag t = some_injective (ap (tag_found name) (sym e) ∙ h) in
        let same : tag_from name w ≡ t = cc in
        (refl, (w.marks, ap (λ (t : TagObject). t.marked) (sym same)))

-- A commit is found without looking at the tags.
pub kind-commit :
    (repo other : Repo) (k : Kind) (c : Commit)
    → of_kind repo k ≡ some (commit c)
    → of_kind other k ≡ some (commit c)
unfolding of_kind tag_in
kind-commit repo other (of_commit c') c h = h
kind-commit repo other (of_blob text) c h = absurd (cc)
kind-commit repo other of_nothing c h = absurd (cc)
kind-commit repo other (of_tag name) c h = by_words (lookup name repo) refl
  where
    by_words :
        (w : Option Words)
        → lookup name repo ≡ w
        → tag_found name (lookup name other) ≡ some (commit c)
    by_words none e =
        let out : none ≡ some (commit c) = ap (tag_found name) (sym e) ∙ h in absurd (cc)
    by_words (some w) e =
        let is : tag (tag_from name w) ≡ commit c =
          some_injective (ap (tag_found name) (sym e) ∙ h) in
        absurd (cc)

pub kind-blob :
    (repo : Repo) (k : Kind) (sha text : Text)
    → of_kind repo k ≡ some (blob sha text)
    → sha ≡ blob_named text
unfolding of_kind tag_in
kind-blob repo (of_commit c) sha text h = absurd (cc)
kind-blob repo (of_blob t) sha text h =
    let is : blob (blob_named t) t ≡ blob sha text = some_injective h in
    let first : blob_named t ≡ sha = ap id_of is in
    let second : t ≡ text = ap text_in is in sym first ∙ ap blob_named second
kind-blob repo of_nothing sha text h = absurd (cc)
kind-blob repo (of_tag name) sha text h = by_words (lookup name repo) refl
  where
    by_words : (w : Option Words) → lookup name repo ≡ w → sha ≡ blob_named text
    by_words none e =
        let out : none ≡ some (blob sha text) = ap (tag_found name) (sym e) ∙ h in absurd (cc)
    by_words (some w) e =
        let is : tag (tag_from name w) ≡ blob sha text =
          some_injective (ap (tag_found name) (sym e) ∙ h) in
        absurd (cc)

two-id : (c : Two) → (strip (sha_of c) ≡ sha_of c) × (is_nil (sha_of c) ≡ false)
unfolding strip is_space
two-id earlier = (refl, refl)
two-id later = (refl, refl)

pub kind-commit_id :
    (repo : Repo) (k : Kind) (c : Commit)
    → of_kind repo k ≡ some (commit c)
    → (strip c.sha ≡ c.sha) × (is_nil c.sha ≡ false)
unfolding of_kind tag_in
kind-commit_id repo (of_commit t) c h =
    let is : commit (commit_of t) ≡ commit c = some_injective h in
    let sha : sha_of t ≡ c.sha = sym (sha_of_commit t) ∙ ap id_of is in
    subst (λ s. (strip s ≡ s) × (is_nil s ≡ false)) sha (two-id t)
kind-commit_id repo (of_blob text) c h = absurd (cc)
kind-commit_id repo of_nothing c h = absurd (cc)
kind-commit_id repo (of_tag name) c h = by_words (lookup name repo) refl
  where
    by_words :
        (w : Option Words) → lookup name repo ≡ w → (strip c.sha ≡ c.sha) × (is_nil c.sha ≡ false)
    by_words none e =
        let out : none ≡ some (commit c) = ap (tag_found name) (sym e) ∙ h in absurd (cc)
    by_words (some w) e =
        let is : tag (tag_from name w) ≡ commit c =
          some_injective (ap (tag_found name) (sym e) ∙ h) in
        absurd (cc)
