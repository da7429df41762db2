-- ===== src/Operations/Create/Planned.antt =====
-- What `async_create_version` has read before it makes a version.
use ha_dashboard_history.Base.{
  ℕ, ◌≡◌, ◌≢◌, refl, ap, sym, subst, ◌∙◌, inl, inr, true, not, List, ◌∷◌, ◌++◌, Option, some, Text,
  codes, take, length, arith, suc, after_prefix, after_prefix-append, nat_eq, Elem, Option-cases,
}
use ha_dashboard_history.Git.{Git}
use ha_dashboard_history.Versions.Number.{
  Level, Parts, candidates, version_name, bump, base_of, latest,
}
use ha_dashboard_history.Versions.Number.Next.{candidates_fresh}
use ha_dashboard_history.Versions.Number.Owner.{tag_tail, NoSlash-tag_tail, version_name-tag_tail}
use ha_dashboard_history.Store.Types.{Store, Answer, raised, done, NoneType, no_value}
use ha_dashboard_history.Store.Resolve.{resolve}
use ha_dashboard_history.Store.Tags.{owns}
use ha_dashboard_history.Store.Versions.{Outcome, list_versions}
use ha_dashboard_history.Store.Index.{RevisionIndex}
use ha_dashboard_history.Store.Reads.{read_at}
use ha_dashboard_history.Operations.Create.{
  Reply, failed, crashed, replied, ◌>>=◌, created, names_of, level_of, known_level, titled,
  chosen_revision, state_at, next_versions, planned, unknown_revision, not_there_at, by_store,
}

pub >>=-eq-replied {ℓ κ} :
    {A : Type ℓ} {B : Type κ} (first : Reply A) (next : A → Reply B) {b : B}
    → (first >>= next) ≡ replied b
    → (a : A) × (first ≡ replied a) × (next a ≡ replied b)
>>=-eq-replied (failed e) next h = absurd (cc)
>>=-eq-replied crashed next h = absurd (cc)
>>=-eq-replied (replied a) next h = (a, refl, h)

pub replied_injective {ℓ} : {A : Type ℓ} {a b : A} → replied a ≡ replied b → a ≡ b
replied_injective h = cc

-- A name that is built for a dashboard belongs to it.
pub owns-version_name : (key : Text) (p : Parts) → owns (version_name key p) key ≡ true
unfolding owns
owns-version_name key p =
    let found : after_prefix (key ++ codes "/") (version_name key p) ≡ some (tag_tail p) =
      ap (after_prefix (key ++ codes "/")) (version_name-tag_tail key p)
      ∙ after_prefix-append (key ++ codes "/") (tag_tail p) in
    rw (found, owns) (ap not (NoSlash-tag_tail p))

owns-candidate :
    (key : Text) (names : List Text) (level : Level)
    → owns ((candidates key names).at_level level) key ≡ true
unfolding candidates
owns-candidate key names level = owns-version_name key (bump (base_of (latest key names)) level)

pub longer≢ : (c : ℕ) (s : Text) → c ∷ s ≢ s
longer≢ c s h = let e : suc (length s) ≡ length s = ap (λ t. length t) h in absurd (omega arith)

pub created-eq-replied :
    {R : Type 0} (name : Text) (outcome : Outcome R NoneType) (answer : Text)
    → (created name outcome).reply ≡ replied answer
    → (outcome.answer ≡ done no_value) × (name ≡ answer)
created-eq-replied name outcome answer h = by_answer outcome.answer refl h
  where
    by_answer :
        (a : Answer NoneType)
        → outcome.answer ≡ a
        → (elim a as (λ x. Reply Text) [ raised s ↦ failed (by_store s) | done _ ↦ replied name ])
          ≡ replied answer
        → (outcome.answer ≡ done no_value) × (name ≡ answer)
    by_answer (raised s) e h = absurd (cc)
    by_answer (done no_value) e h = (e, replied_injective h)

module _ {R : Type 0} ⦃git : Git R⦄ where
  -- What was read before a version is made.
  pub record WasPlanned (store : Store R) (key full name : Text) : Type 0 where
    pub text : Text
    pub level : Level
    pub there : read_at store key full ≡ some text
    pub named : name ≡ (next_versions store key).at_level level

  state_at-eq-replied :
      (store : Store R) (key revision : Text) {state : Text × Text}
      → state_at store key revision ≡ replied state
      → read_at store key state.0 ≡ some state.1
  unfolding state_at
  state_at-eq-replied store key revision h = elim (Option-cases (resolve store revision)) [
    | inl e ↦
        let out : state_at store key revision ≡ failed (unknown_revision revision) =
          rw (e, state_at) refl in
        absurd (cc)
    | inr (full, e) ↦ elim (Option-cases (read_at store key full)) [
      | inl e' ↦
          let out : state_at store key revision ≡ failed (not_there_at key (take 10 full)) =
            rw (e, e', state_at) refl in
          absurd (cc)
      | inr (text, e') ↦
          let out : state_at store key revision ≡ replied (full, text) =
            rw (e, e', state_at) refl in
          let same = replied_injective (sym out ∙ h) in
          subst (λ (s : Text × Text). read_at store key s.0 ≡ some s.1) same e'
    ]
  ]

  pub planned-WasPlanned :
      (store : Store R) (cached : Option RevisionIndex) (key level title : Text)
      (revision live : Option Text) (full name : Text)
      → planned store cached key level title revision live ≡ replied (full, name)
      → WasPlanned store key full name
  unfolding planned
  planned-WasPlanned store cached key level title revision live full name h =
      let (level', known, h) = >>=-eq-replied (known_level level (level_of level)) _ h in
      let (title', has_title, h) = >>=-eq-replied (titled title) _ h in
      let (revision', chosen, h) =
        >>=-eq-replied (chosen_revision store cached key revision live) _ h in
      let (state, there, h) = >>=-eq-replied (state_at store key revision') _ h in
      let same = replied_injective h in
      let full_is : state.0 ≡ full = ap (λ (p : Text × Text). p.0) same in
      record {
        text = state.1;
        level = level';
        there =
            ap (read_at store key) (sym full_is) ∙ state_at-eq-replied store key revision' there;
        named = sym (ap (λ (p : Text × Text). p.1) same);
      }

  pub next_versions-fresh :
      (store : Store R) (key : Text) (level : Level)
      → ¬ Elem
          ((next_versions store key).at_level level)
          (names_of (list_versions store (some key)))
  unfolding next_versions
  next_versions-fresh store key level =
      candidates_fresh key (names_of (list_versions store (some key))) level

  pub owns-next_versions :
      (store : Store R) (key : Text) (level : Level)
      → owns ((next_versions store key).at_level level) key ≡ true
  unfolding next_versions
  owns-next_versions store key level =
      owns-candidate key (names_of (list_versions store (some key))) level
