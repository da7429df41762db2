-- ===== src/Store/Index/Extended.antt =====
-- An index carried forward holds what an index built anew would hold.
use ha_dashboard_history.Base.{
  ℕ, suc, ◌≡◌, refl, ap, sym, subst, ◌∙◌, ◌⊎◌, inl, inr, Bool, true, false, ◌||◌, List, [], ◌∷◌,
  ◌++◌, map, Option, none, some, Text, contains, lookup, length, is_nil, list_eq, nat_eq, All,
  Bool-cases, Option-cases, arith,
}
use ha_dashboard_history.Git.{Entry}
use ha_dashboard_history.Store.Dict.{get_or}
use ha_dashboard_history.Store.Dict.Laws.{either, either-none, if_same, lookup-cons_other}
use ha_dashboard_history.Store.Touched.{Touched}
use ha_dashboard_history.Store.Index.{
  RevisionIndex, index_all, read_entry, built_index, empty_index, fresh_entries, slide, ahead,
  carried_forward, extended_index,
}
use ha_dashboard_history.Store.Index.Walked.{
  revisions_of, place_in, is_named, first_removal, index_all-by_key, index_all-by_key-IsDict,
  index_all-order, index_all-head, index_all-names, index_all-removed_meta,
  index_all-removed_meta-IsDict,
}
use ha_dashboard_history.Store.Index.Joined.{
  plus, get_or-put_in_front, lookup-overridden, lookup-slide, place_in-slide, place_in-append,
  revisions_of-append, is_named-append, first_removal-append, read_entry-append,
}
use ha_dashboard_history.Store.Index.Distinct.{read_entry-KeysOnce}

some_injective {ℓ} : {A : Type ℓ} {a b : A} → some a ≡ some b → a ≡ b
some_injective h = cc

some≢none {ℓ} : {A : Type ℓ} {a : A} → ¬ (some a ≡ none)
some≢none h = absurd (cc)

abbrev KnownNowhere : List (Text × ℕ) → List Entry → Type 0
KnownNowhere order entries = All (λ (e : Entry). lookup e.commit.sha order ≡ none) entries

fresh_entries-eq-some :
    (order : List (Text × ℕ)) (entries : List Entry) {fresh : List (Text × Touched)}
    → fresh_entries order entries ≡ some fresh
    → (fresh ≡ map read_entry entries) × KnownNowhere order entries
unfolding fresh_entries
fresh_entries-eq-some order [] h = (sym (some_injective h), tt)
fresh_entries-eq-some order (entry ∷ entries) h =
    elim (Option-cases (lookup entry.commit.sha order)) [
      | inr (at, e) ↦
          let out : fresh_entries order (entry ∷ entries) ≡ none = rw (e, fresh_entries) refl in
          absurd (some≢none (sym h ∙ out))
      | inl e ↦ elim (Option-cases (fresh_entries order entries)) [
        | inl e' ↦
            let out : fresh_entries order (entry ∷ entries) ≡ none =
              rw (e, e', fresh_entries) refl in
            absurd (some≢none (sym h ∙ out))
        | inr (rest, e') ↦
            let out : fresh_entries order (entry ∷ entries) ≡ some (read_entry entry ∷ rest) =
              rw (e, e', fresh_entries) refl in
            let (same, unknown) = fresh_entries-eq-some order entries e' in
            (sym (some_injective (sym out ∙ h)) ∙ ap (λ l. read_entry entry ∷ l) same, (e, unknown))
      ]
    ]

-- A revision of the entries that arrived has no place in the old order.
placed-unknown :
    (r : Text) (p : ℕ) (order : List (Text × ℕ)) (entries : List Entry)
    → KnownNowhere order entries
    → (place_in r p (map read_entry entries) ≡ none) ⊎ (lookup r order ≡ none)
unfolding read_entry
placed-unknown r p order [] h = inl refl
placed-unknown r p order (entry ∷ entries) (here, h) =
    elim (placed-unknown r (suc p) order entries h) [
      | inr unknown ↦ inr unknown
      | inl later ↦
          if_same r entry.commit.sha _ (λ e. inr (ap (λ a. lookup a order) e ∙ here))
            (λ d. inl (
              ap (λ o. either o (lookup r ((entry.commit.sha, p) ∷ []))) later
              ∙ lookup-cons_other r entry.commit.sha p [] d))
    ]

either_swap : (a b : Option ℕ) → (a ≡ none) ⊎ (b ≡ none) → either a b ≡ either b a
either_swap a b (inl e) = rw e (sym (either-none b))
either_swap a b (inr e) = rw e (either-none a)

or_false : (b : Bool) → (b || false) ≡ b
or_false true = refl
or_false false = refl

-- What two indexes answer at a name or a revision.
pub record AnswersAlike (k : Text) (one other : RevisionIndex) : Type 0 where
  pub head : one.head ≡ other.head
  pub revisions : get_or [] k one.by_key ≡ get_or [] k other.by_key
  pub place : lookup k one.order ≡ lookup k other.order
  pub named : contains k one.names ≡ contains k other.names
  pub removal : lookup k one.removed_meta ≡ lookup k other.removed_meta

-- An index answers like itself.
pub AnswersAlike-refl : (k : Text) (index : RevisionIndex) → AnswersAlike k index index
AnswersAlike-refl k index = record {
  head = refl;
  revisions = refl;
  place = refl;
  named = refl;
  removal = refl;
}

pub built_index-head : (head : Text) (entries : List Entry) → (built_index head entries).head ≡ head
unfolding built_index
built_index-head head entries = index_all-head 0 (map read_entry entries) (empty_index head)

module _ (k head : Text) (entries : List Entry) where
  -- The index built from a walk holds, for each dashboard, the revisions of the entries that
  -- touched it, in the order of the walk.
  pub built_index-by_key :
      get_or [] k (built_index head entries).by_key ≡ revisions_of k (map read_entry entries)
  unfolding built_index get_or lookup
  built_index-by_key =
      index_all-by_key k 0 (map read_entry entries) (empty_index head) (read_entry-KeysOnce entries)

  pub built_index-order :
      lookup k (built_index head entries).order ≡ place_in k 0 (map read_entry entries)
  unfolding built_index lookup
  built_index-order =
      index_all-order k 0 (map read_entry entries) (empty_index head) ∙ either-none _

  built_index-names :
      contains k (built_index head entries).names ≡ is_named k (map read_entry entries)
  unfolding built_index contains
  built_index-names = index_all-names k 0 (map read_entry entries) (empty_index head) ∙ or_false _

  built_index-removed_meta :
      lookup k (built_index head entries).removed_meta ≡ first_removal k (map read_entry entries)
  unfolding built_index lookup
  built_index-removed_meta = index_all-removed_meta k 0 (map read_entry entries) (empty_index head)

module _ (k old_head head : Text) (fresh old : List Entry) where
  abbrev there : List (Text × Touched)
  there = map read_entry fresh

  abbrev behind : List (Text × Touched)
  behind = map read_entry old

  abbrev carried : RevisionIndex
  carried = carried_forward (built_index old_head old) head there

  carried-head : carried.head ≡ (built_index head (fresh ++ old)).head
  unfolding carried_forward
  carried-head = sym (built_index-head head (fresh ++ old))

  carried-revisions :
      get_or [] k carried.by_key ≡ get_or [] k (built_index head (fresh ++ old)).by_key
  unfolding carried_forward ahead get_or lookup
  carried-revisions =
      let start = ahead (built_index old_head old) head (length there) in
      let arrived : get_or [] k (index_all 0 there start).by_key ≡ revisions_of k there =
        index_all-by_key k 0 there start (read_entry-KeysOnce fresh) in
      get_or-put_in_front k (index_all 0 there start).by_key (built_index old_head old).by_key
        (index_all-by_key-IsDict 0 there start tt)
      ∙ (ap (λ l. l ++ get_or [] k (built_index old_head old).by_key) arrived
          ∙ (ap (λ l. revisions_of k there ++ l) (built_index-by_key k old_head old)
              ∙ (sym (revisions_of-append k there behind)
                  ∙ (ap (revisions_of k) (sym (read_entry-append fresh old))
                      ∙ sym (built_index-by_key k head (fresh ++ old))))))

  carried-place :
      KnownNowhere (built_index old_head old).order fresh
      → lookup k carried.order ≡ lookup k (built_index head (fresh ++ old)).order
  unfolding carried_forward ahead
  carried-place unknown =
      let n = length there in
      let order = (built_index old_head old).order in
      let slid : lookup k (slide n order) ≡ place_in k n behind =
        lookup-slide k n order
        ∙ (ap (plus n) (built_index-order k old_head old)
            ∙ sym (place_in-slide k 0 n n behind (omega arith))) in
      let apart : (place_in k 0 there ≡ none) ⊎ (place_in k n behind ≡ none) =
        elim (placed-unknown k 0 order fresh unknown) [
          | inl e ↦ inl e
          | inr e ↦ inr (sym slid ∙ (lookup-slide k n order ∙ ap (plus n) e))
        ] in
      index_all-order k 0 there (ahead (built_index old_head old) head n)
      ∙ (ap (either (place_in k 0 there)) slid
          ∙ (either_swap (place_in k 0 there) (place_in k n behind) apart
              ∙ (sym (place_in-append k 0 n there behind (omega arith))
                  ∙ (ap (place_in k 0) (sym (read_entry-append fresh old))
                      ∙ sym (built_index-order k head (fresh ++ old))))))

  carried-named : contains k carried.names ≡ contains k (built_index head (fresh ++ old)).names
  unfolding carried_forward ahead
  carried-named =
      index_all-names k 0 there (ahead (built_index old_head old) head (length there))
      ∙ (ap (λ b. is_named k there || b) (built_index-names k old_head old)
          ∙ (sym (is_named-append k there behind)
              ∙ (ap (is_named k) (sym (read_entry-append fresh old))
                  ∙ sym (built_index-names k head (fresh ++ old)))))

  carried-removal :
      lookup k carried.removed_meta ≡ lookup k (built_index head (fresh ++ old)).removed_meta
  unfolding carried_forward ahead lookup
  carried-removal =
      let start = ahead (built_index old_head old) head (length there) in
      lookup-overridden k (built_index old_head old).removed_meta
        (index_all 0 there start).removed_meta (index_all-removed_meta-IsDict 0 there start tt)
      ∙ (ap (λ o. either o (lookup k (built_index old_head old).removed_meta))
            (index_all-removed_meta k 0 there start)
          ∙ (ap (either (first_removal k there)) (built_index-removed_meta k old_head old)
              ∙ (sym (first_removal-append k there behind)
                  ∙ (ap (first_removal k) (sym (read_entry-append fresh old))
                      ∙ sym (built_index-removed_meta k head (fresh ++ old))))))

  -- An index that was carried forward over the entries ahead of its HEAD, where that is possible,
  -- answers about each dashboard and each revision as an index built anew from the whole walk:
  -- the revisions of the dashboard, the place of the revision, whether the name was ever there,
  -- and the last metadata that a deletion removed.
  pub extended_index-AnswersAlike :
      (index : RevisionIndex)
      → extended_index (built_index old_head old) head (some fresh) ≡ some index
      → AnswersAlike k index (built_index head (fresh ++ old))
  unfolding extended_index
  extended_index-AnswersAlike index h =
      elim (Option-cases (fresh_entries (built_index old_head old).order fresh)) [
        | inl e ↦
            let out : extended_index (built_index old_head old) head (some fresh) ≡ none =
              rw (e, extended_index) refl in
            absurd (some≢none (sym h ∙ out))
        | inr (entries, e) ↦ elim (Bool-cases (is_nil entries)) [
          | inl e' ↦
              let out : extended_index (built_index old_head old) head (some fresh) ≡ none =
                rw (e, e', extended_index) refl in
              absurd (some≢none (sym h ∙ out))
          | inr e' ↦
              let out : extended_index (built_index old_head old) head (some fresh)
                  ≡ some (carried_forward (built_index old_head old) head entries) =
                rw (e, e', extended_index) refl in
              let (same, unknown) =
                fresh_entries-eq-some (built_index old_head old).order fresh e in
              let is : carried ≡ index =
                ap (carried_forward (built_index old_head old) head) (sym same)
                ∙ some_injective (sym out ∙ h) in
              subst (λ i. AnswersAlike k i (built_index head (fresh ++ old))) is
                (record {
                  head = carried-head;
                  revisions = carried-revisions;
                  place = carried-place unknown;
                  named = carried-named;
                  removal = carried-removal;
                })
        ]
      ]
