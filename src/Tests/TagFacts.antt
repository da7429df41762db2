-- ===== src/Tests/TagFacts.antt =====
-- What is found under the name of a tag in TwoCommits.
use ha_dashboard_history.Base.{
  ℕ, ◌≡◌, ◌≢◌, refl, ap, sym, ◌∙◌, true, [], ◌∷◌, ◌++◌, Option, none, some, Text, contains, rstrip,
  is_space, lookup, list_eq, nat_eq,
}
use ha_dashboard_history.Git.{Object, tag}
use ha_dashboard_history.Store.Dict.Laws.{
  if_same, same_text, other_text, lookup-cons_same, lookup-cons_other, contains-cons_same,
  contains-cons_other,
}
use ha_dashboard_history.Tests.TwoCommits.{
  Two, earlier, later, sha_of, Words, Repo, tag_from, tag_found, tag_in, names_in, two_of, made_tag,
  without,
}
use ha_dashboard_history.Tests.Kinds.{some_injective}

pub tag_in-cons_same :
    (name : Text) (w : Words) (repo : Repo)
    → tag_in ((name, w) ∷ repo) name ≡ some (tag (tag_from name w))
unfolding tag_in
tag_in-cons_same name w repo = ap (tag_found name) (lookup-cons_same name name w repo refl)

pub tag_in-cons_other :
    (name other : Text) (w : Words) (repo : Repo)
    → other ≢ name
    → tag_in ((name, w) ∷ repo) other ≡ tag_in repo other
unfolding tag_in
tag_in-cons_other name other w repo d = ap (tag_found other) (lookup-cons_other other name w repo d)

pub made_tag-some :
    (name message : Text) (now : ℕ) (r s : Repo) (o : Option Two)
    → made_tag name message now r o ≡ some s
    → (c : Two) × (w : Words) × (o ≡ some c)
      × (s ≡ (name, w) ∷ r)
      × (w.marks ≡ c)
      × (w.message ≡ some (message ++ (b'\n' ∷ [])))
      × (w.tag_time ≡ now)
made_tag-some name message now r s none h = absurd (cc)
made_tag-some name message now r s (some c) h =
    (c, _, refl, sym (some_injective h), refl, refl, refl)

pub two_of-sha_of : (marked : Text) (c : Two) → two_of marked ≡ some c → sha_of c ≡ marked
unfolding two_of
two_of-sha_of marked c h =
    if_same marked (sha_of earlier) _
      (λ e.
        let now : two_of marked ≡ some earlier =
          rw (same_text marked (sha_of earlier) e, two_of) refl in
        ap sha_of (sym (some_injective (sym now ∙ h))) ∙ sym e)
      (λ d.
        if_same marked (sha_of later) _
          (λ e.
            let now : two_of marked ≡ some later =
              rw (other_text marked (sha_of earlier) d, same_text marked (sha_of later) e, two_of)
                refl in
            ap sha_of (sym (some_injective (sym now ∙ h))) ∙ sym e)
          (λ d'.
            let now : two_of marked ≡ none =
              rw (other_text marked (sha_of earlier) d, other_text marked (sha_of later) d', two_of)
                refl in
            absurd (cc (now, h))))

pub blank_end : rstrip (b'\n' ∷ []) ≡ []
unfolding rstrip is_space
blank_end = refl

without-same :
    (name other : Text) (w : Words) (repo : Repo)
    → name ≡ other
    → without name ((other, w) ∷ repo) ≡ without name repo
unfolding without
without-same name other w repo e = rw (same_text name other e, without) refl

without-other :
    (name other : Text) (w : Words) (repo : Repo)
    → name ≢ other
    → without name ((other, w) ∷ repo) ≡ (other, w) ∷ without name repo
unfolding without
without-other name other w repo d = rw (other_text name other d, without) refl

pub lookup-without_self : (name : Text) (repo : Repo) → lookup name (without name repo) ≡ none
unfolding without lookup
lookup-without_self name [] = refl
lookup-without_self name ((other, w) ∷ repo) =
    if_same name other _
      (λ e. ap (lookup name) (without-same name other w repo e) ∙ lookup-without_self name repo)
      (λ d.
        ap (lookup name) (without-other name other w repo d)
        ∙ (lookup-cons_other name other w (without name repo) d ∙ lookup-without_self name repo))

pub lookup-without_other :
    (name other : Text) (repo : Repo)
    → other ≢ name
    → lookup other (without name repo) ≡ lookup other repo
unfolding without lookup
lookup-without_other name other [] d = refl
lookup-without_other name other ((n, w) ∷ repo) d =
    if_same name n _
      (λ e.
        let apart : other ≢ n = λ f. d (f ∙ sym e) in
        ap (lookup other) (without-same name n w repo e)
        ∙ (lookup-without_other name other repo d ∙ sym (lookup-cons_other other n w repo apart)))
      (λ a.
        ap (lookup other) (without-other name n w repo a)
        ∙ if_same other n _
            (λ e.
              lookup-cons_same other n w (without name repo) e
              ∙ sym (lookup-cons_same other n w repo e))
            (λ b.
              lookup-cons_other other n w (without name repo) b
              ∙ (lookup-without_other name other repo d
                  ∙ sym (lookup-cons_other other n w repo b))))

pub contains-names_in :
    (repo : Repo) (name : Text) (o : Object)
    → tag_in repo name ≡ some o
    → contains name (names_in repo) ≡ true
unfolding tag_in names_in lookup
contains-names_in [] name o h = absurd (cc)
contains-names_in ((n, w) ∷ repo) name o h =
    if_same name n _ (λ e. contains-cons_same name n (names_in repo) e)
      (λ d.
        contains-cons_other name n (names_in repo) d
        ∙ contains-names_in repo name o
            (ap (tag_found name) (sym (lookup-cons_other name n w repo d)) ∙ h))
