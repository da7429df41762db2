-- ===== src/Milestones/Listed.antt =====
-- A version that reads is listed.
use ha_dashboard_history.Base.{
  suc, ◌≡◌, refl, ap, sym, ◌∙◌, inl, inr, Bool, true, false, ◌||◌, List, [], ◌∷◌, Option, none,
  some, Text, contains, list_eq, nat_eq, ◌==◌, ltb, sort_by, insert_sorted, list_beq, Elem,
  Bool-cases, Option-cases,
}
use ha_dashboard_history.Git.{Git, Object, commit, tag, blob, tree}
use ha_dashboard_history.Records.{Version}
use ha_dashboard_history.Versions.Number.{Level, patch, minor, major}
use ha_dashboard_history.Store.Types.{Store, done}
use ha_dashboard_history.Store.Dict.Laws.{if_same, contains-cons_same, contains-cons_other}
use ha_dashboard_history.Store.Tags.{version_from}
use ha_dashboard_history.Store.Versions.{read_version, list_versions, each_tag, wanted}
use ha_dashboard_history.Store.Versions.Parts.{read_version-eq-done}
use ha_dashboard_history.Store.Versions.Parts.{held_of_target}
use ha_dashboard_history.Operations.Create.{Reply, failed, crashed, replied, level_of, names_of}
use ha_dashboard_history.Milestones.{created_of, level_text}

Elem-of_contains : (a : Text) (xs : List Text) → contains a xs ≡ true → Elem a xs
unfolding contains
Elem-of_contains a [] h = absurd (cc)
Elem-of_contains a (x ∷ xs) h =
    if_same a x _ (λ e. (0, ap some (sym e)))
      (λ d.
        let (i, at) = Elem-of_contains a xs (sym (contains-cons_other a x xs d) ∙ h) in (suc i, at))

contains-cons_cons :
    (a x y : Text) (xs : List Text) → contains a (x ∷ y ∷ xs) ≡ contains a (y ∷ x ∷ xs)
unfolding contains
contains-cons_cons a x y xs = swap (a == x) (a == y) (contains a xs)
  where
    swap : (b c d : Bool) → (b || (c || d)) ≡ (c || (b || d))
    swap true true d = refl
    swap true false d = refl
    swap false true d = refl
    swap false false d = refl

module _ (before : Version → Version → Bool) (a : Text) where
  contains-insert_sorted :
      (v : Version) (vs : List Version)
      → contains a (names_of (insert_sorted before v vs)) ≡ contains a (v.name ∷ names_of vs)
  unfolding insert_sorted contains
  contains-insert_sorted v [] = refl
  contains-insert_sorted v (w ∷ vs) = elim (Bool-cases (before w v)) [
    | inl e ↦
        let now : insert_sorted before v (w ∷ vs) ≡ w ∷ insert_sorted before v vs =
          rw (e, insert_sorted) refl in
        ap (λ l. contains a (names_of l)) now
        ∙ (ap (λ b. (a == w.name) || b) (contains-insert_sorted v vs)
            ∙ contains-cons_cons a w.name v.name (names_of vs))
    | inr e ↦
        let now : insert_sorted before v (w ∷ vs) ≡ v ∷ w ∷ vs = rw (e, insert_sorted) refl in
        ap (λ l. contains a (names_of l)) now
  ]

  contains-sort_by :
      (vs : List Version) → contains a (names_of (sort_by before vs)) ≡ contains a (names_of vs)
  unfolding sort_by contains
  contains-sort_by [] = refl
  contains-sort_by (v ∷ vs) =
      contains-insert_sorted v (sort_by before vs)
      ∙ ap (λ b. (a == v.name) || b) (contains-sort_by vs)

some_injective : {A : Type 0} {a b : A} → some a ≡ some b → a ≡ b
some_injective h = cc

pub level_text-level_of : (level : Level) → level_of (level_text level) ≡ some level
unfolding level_of list_beq
level_text-level_of patch = refl
level_text-level_of minor = refl
level_text-level_of major = refl

pub created_of-eq-some :
    (r : Reply Text) (name : Text) → created_of r ≡ some name → r ≡ replied name
created_of-eq-some (failed e) name h = absurd (cc)
created_of-eq-some crashed name h = absurd (cc)
created_of-eq-some (replied n) name h = ap replied (some_injective h)

version_from-name : (name : Text) (o : Object) → (version_from name o).name ≡ name
unfolding version_from
version_from-name name (tag t) = refl
version_from-name name (commit c) = refl
version_from-name name (blob sha text) = refl
version_from-name name (tree sha) = refl

module _ {R : Type 0} ⦃git : Git R⦄ where
  each_tag-skip :
      (repo : R) (key : Option Text) (ref : Text) (refs : List Text) (name : Text)
      → contains name (names_of (each_tag repo key refs)) ≡ true
      → contains name (names_of (each_tag repo key (ref ∷ refs))) ≡ true
  unfolding each_tag
  each_tag-skip repo key ref refs name h = elim (Bool-cases (wanted key ref)) [
    | inr e ↦ rw (e, each_tag) h
    | inl e ↦ elim (Option-cases (git.tag_at repo ref)) [
      | inl e' ↦ rw (e, e', each_tag) h
      | inr (target, e') ↦
          let now : each_tag repo key (ref ∷ refs)
              ≡ version_from ref target ∷ each_tag repo key refs =
            rw (e, e', each_tag) refl in
          ap (λ l. contains name (names_of l)) now
          ∙ if_same name (version_from ref target).name _
              (λ s. contains-cons_same name (version_from ref target).name _ s)
              (λ d. contains-cons_other name (version_from ref target).name _ d ∙ h)
    ]
  ]

  each_tag-contains :
      (repo : R) (key : Option Text) (name : Text) (o : Object) (refs : List Text)
      → git.tag_at repo name ≡ some o
      → wanted key name ≡ true
      → contains name refs ≡ true
      → contains name (names_of (each_tag repo key refs)) ≡ true
  unfolding each_tag
  each_tag-contains repo key name o [] there mine h =
      let out : false ≡ true = unfold contains in h in absurd (cc)
  each_tag-contains repo key name o (ref ∷ refs) there mine h =
      if_same name ref _
        (λ e.
          let now : each_tag repo key (ref ∷ refs) ≡ version_from ref o ∷ each_tag repo key refs =
            rw (ap (wanted key) (sym e) ∙ mine, ap (git.tag_at repo) (sym e) ∙ there, each_tag)
              refl in
          ap (λ l. contains name (names_of l)) now
          ∙ contains-cons_same name (version_from ref o).name _ (e ∙ sym (version_from-name ref o)))
        (λ d. each_tag-skip repo key ref refs name (
          each_tag-contains repo key name o refs there mine
            (sym (contains-cons_other name ref refs d) ∙ h)))

  -- A version that reads for a dashboard is among those listed for it.
  pub listed_of_read :
      (key name : Text) (store : Store R) (v : Version)
      → read_version key name store ≡ done v
      → Elem name (names_of (list_versions store (some key)))
  unfolding list_versions wanted
  listed_of_read key name store v h =
      let (o, mine, found, is) = read_version-eq-done key name store h in
      let (repo, held, there) = held_of_target store name o found in
      let all = each_tag repo (some key) (git.tag_names repo) in
      let now : list_versions store (some key) ≡ sort_by (λ v w. ltb w.timestamp v.timestamp) all =
        ap
          (λ r. elim r as (λ x. List Version) [
            | none ↦ []
            | some repo ↦
                sort_by (λ v w. ltb w.timestamp v.timestamp)
                  (each_tag repo (some key) (git.tag_names repo))
          ])
          held in
      Elem-of_contains name _ (
        ap (λ l. contains name (names_of l)) now
        ∙ (contains-sort_by (λ v w. ltb w.timestamp v.timestamp) name all
            ∙ each_tag-contains repo (some key) name o (git.tag_names repo) there mine
                (git.tag_names-tag_at repo name o there)))
