-- ===== src/Store/Index/Walked.antt =====
-- What the index holds of the entries that were read into it, one field after the other.
use ha_dashboard_history.Base.{
  ℕ, suc, ◌≡◌, refl, ap, sym, ◌∙◌, Bool, true, false, ◌||◌, List, [], ◌∷◌, ◌++◌, Option, none, some,
  Text, contains, lookup, list_eq, nat_eq, ◌==◌,
}
use mathlib.Core.List.{append_assoc, append-nil}
use ha_dashboard_history.Store.Dict.{set_item, set_default, get_or, add}
use ha_dashboard_history.Store.Dict.Laws.{
  either, either_assoc, either-none, if_same, IsDistinct, contains-cons_same, contains-cons_other,
  contains-add, IsDict, lookup-cons_same, lookup-cons_other, lookup-set_item_self,
  lookup-set_item_other, lookup-set_default_self, lookup-set_default_other, set_item-IsDict,
  set_default-IsDict, get_or-of_lookup, get_or-set_item_self,
}
use ha_dashboard_history.Store.Touched.{Touched}
use ha_dashboard_history.Store.Index.{
  RevisionIndex, append_each, add_all, default_all, index_entry, index_all,
}

-- One revision, if the test holds.
abbrev pub one_if : Bool → Text → List Text
one_if true revision = revision ∷ []
one_if false revision = []

-- A walk filtered on one dashboard: the revisions that touched it, in the order of the walk.
abbrev pub revisions_of : Text → List (Text × Touched) → List Text
revisions_of key [] = []
revisions_of key ((revision, found) ∷ entries) =
    one_if (contains key found.keys) revision ++ revisions_of key entries

-- The last place of a revision in a walk that starts at a number.
abbrev here_if : Text → Text → ℕ → Option ℕ
here_if r revision position = lookup r ((revision, position) ∷ [])

abbrev pub place_in : Text → ℕ → List (Text × Touched) → Option ℕ
place_in r position [] = none
place_in r position ((revision, found) ∷ entries) =
    either (place_in r (suc position) entries) (here_if r revision position)

abbrev pub is_named : Text → List (Text × Touched) → Bool
is_named a [] = false
is_named a ((revision, found) ∷ entries) = contains a found.names || is_named a entries

-- The first removal in the order of the walk, which is the last one that happened.
abbrev pub first_removal : Text → List (Text × Touched) → Option Text
first_removal key [] = none
first_removal key ((revision, found) ∷ entries) =
    either (lookup key found.removed_meta) (first_removal key entries)

append_each-other :
    (k : Text) (keys : List Text) (revision : Text) (m : List (Text × List Text))
    → contains k keys ≡ false
    → lookup k (append_each keys revision m) ≡ lookup k m
unfolding append_each
append_each-other k [] revision m h = refl
append_each-other k (j ∷ keys) revision m h =
    if_same k j _
      (λ e. let out : true ≡ false = sym (contains-cons_same k j keys e) ∙ h in absurd (cc))
      (λ d.
        append_each-other k keys revision (set_item j (get_or [] j m ++ (revision ∷ [])) m)
          (sym (contains-cons_other k j keys d) ∙ h)
        ∙ lookup-set_item_other k j (get_or [] j m ++ (revision ∷ [])) m d)

get_or-append_each :
    (k : Text) (keys : List Text) (revision : Text) (m : List (Text × List Text))
    → IsDistinct keys
    → get_or [] k (append_each keys revision m) ≡ get_or [] k m ++ one_if (contains k keys) revision
unfolding append_each contains
get_or-append_each k [] revision m h = sym (append-nil (get_or [] k m))
get_or-append_each k (j ∷ keys) revision m h =
    let m' = set_item j (get_or [] j m ++ (revision ∷ [])) m in
    if_same k j _
      (λ e.
        let last : contains k keys ≡ false = ap (λ a. contains a keys) e ∙ h.0 in
        let kept : get_or [] k (append_each keys revision m') ≡ get_or [] k m' =
          get_or-of_lookup [] k _ m' (append_each-other k keys revision m' last) in
        let written : get_or [] k m' ≡ get_or [] k m ++ (revision ∷ []) =
          ap (λ a. get_or [] k (set_item a (get_or [] a m ++ (revision ∷ [])) m)) (sym e)
          ∙ get_or-set_item_self [] k _ m in
        kept
        ∙ (written
            ∙ ap (λ b. get_or [] k m ++ one_if b revision) (sym (contains-cons_same k j keys e))))
      (λ d.
        get_or-append_each k keys revision m' h.1
        ∙ (ap (λ l. l ++ one_if (contains k keys) revision)
              (get_or-of_lookup [] k m' m (lookup-set_item_other k j _ m d))
            ∙ ap (λ b. get_or [] k m ++ one_if b revision) (sym (contains-cons_other k j keys d))))

append_each-IsDict :
    (keys : List Text) (revision : Text) (m : List (Text × List Text))
    → IsDict m
    → IsDict (append_each keys revision m)
unfolding append_each
append_each-IsDict [] revision m h = h
append_each-IsDict (j ∷ keys) revision m h =
    append_each-IsDict keys revision _ (set_item-IsDict j (get_or [] j m ++ (revision ∷ [])) m h)

or_swap : (x b y : Bool) → (x || (b || y)) ≡ ((b || x) || y)
or_swap true true y = refl
or_swap true false y = refl
or_swap false true y = refl
or_swap false false y = refl

contains-add_all :
    (k : Text) (more names : List Text)
    → contains k (add_all more names) ≡ (contains k more || contains k names)
unfolding add_all contains
contains-add_all k [] names = refl
contains-add_all k (a ∷ more) names =
    contains-add_all k more (add a names)
    ∙ (ap (λ b. contains k more || b) (contains-add k a names)
        ∙ or_swap (contains k more) (k == a) (contains k names))

lookup-default_all :
    (k : Text) (items m : List (Text × Text))
    → lookup k (default_all items m) ≡ either (lookup k m) (lookup k items)
unfolding default_all lookup
lookup-default_all k [] m = sym (either-none (lookup k m))
lookup-default_all k ((j, blob) ∷ items) m =
    let m' = set_default j blob m in
    if_same k j _
      (λ e.
        let now : lookup k m' ≡ either (lookup k m) (some blob) =
          ap (λ a. lookup k (set_default a blob m)) (sym e) ∙ lookup-set_default_self k blob m in
        lookup-default_all k items m'
        ∙ (ap (λ o. either o (lookup k items)) now
            ∙ (either_assoc (lookup k m) (some blob) (lookup k items)
                ∙ ap (either (lookup k m)) (sym (lookup-cons_same k j blob items e)))))
      (λ d.
        lookup-default_all k items m'
        ∙ (ap (λ o. either o (lookup k items)) (lookup-set_default_other k j blob m d)
            ∙ ap (either (lookup k m)) (sym (lookup-cons_other k j blob items d))))

default_all-IsDict : (items m : List (Text × Text)) → IsDict m → IsDict (default_all items m)
unfolding default_all
default_all-IsDict [] m h = h
default_all-IsDict ((j, blob) ∷ items) m h =
    default_all-IsDict items _ (set_default-IsDict j blob m h)

-- Each entry names a dashboard once.
abbrev pub KeysOnce : List (Text × Touched) → Type 0
KeysOnce [] = Unit
KeysOnce ((revision, found) ∷ entries) = IsDistinct found.keys × KeysOnce entries

pub index_all-by_key :
    (k : Text) (position : ℕ) (entries : List (Text × Touched)) (index : RevisionIndex)
    → KeysOnce entries
    → get_or [] k (index_all position entries index).by_key
      ≡ get_or [] k index.by_key ++ revisions_of k entries
unfolding index_all index_entry
index_all-by_key k position [] index h = sym (append-nil (get_or [] k index.by_key))
index_all-by_key k position ((revision, found) ∷ entries) index (once, h) =
    index_all-by_key k (suc position) entries (index_entry position revision found index) h
    ∙ (ap (λ l. l ++ revisions_of k entries)
          (get_or-append_each k found.keys revision index.by_key once)
        ∙ append_assoc (get_or [] k index.by_key) (one_if (contains k found.keys) revision)
            (revisions_of k entries))

pub index_all-by_key-IsDict :
    (position : ℕ) (entries : List (Text × Touched)) (index : RevisionIndex)
    → IsDict index.by_key
    → IsDict (index_all position entries index).by_key
unfolding index_all index_entry
index_all-by_key-IsDict position [] index h = h
index_all-by_key-IsDict position ((revision, found) ∷ entries) index h =
    index_all-by_key-IsDict (suc position) entries (index_entry position revision found index)
      (append_each-IsDict found.keys revision index.by_key h)

lookup-set_item :
    (r revision : Text) (position : ℕ) (order : List (Text × ℕ))
    → lookup r (set_item revision position order)
      ≡ either (here_if r revision position) (lookup r order)
unfolding lookup
lookup-set_item r revision position order =
    if_same r revision _
      (λ e.
        ap (λ a. lookup r (set_item a position order)) (sym e)
        ∙ (lookup-set_item_self r position order
            ∙ ap (λ o. either o (lookup r order))
                (sym (lookup-cons_same r revision position [] e))))
      (λ d.
        lookup-set_item_other r revision position order d
        ∙ ap (λ o. either o (lookup r order)) (sym (lookup-cons_other r revision position [] d)))

pub index_all-order :
    (r : Text) (position : ℕ) (entries : List (Text × Touched)) (index : RevisionIndex)
    → lookup r (index_all position entries index).order
      ≡ either (place_in r position entries) (lookup r index.order)
unfolding index_all index_entry
index_all-order r position [] index = refl
index_all-order r position ((revision, found) ∷ entries) index =
    index_all-order r (suc position) entries (index_entry position revision found index)
    ∙ (ap (either (place_in r (suc position) entries))
          (lookup-set_item r revision position index.order)
        ∙ sym (
            either_assoc (place_in r (suc position) entries) (here_if r revision position)
              (lookup r index.order)))

pub index_all-names :
    (a : Text) (position : ℕ) (entries : List (Text × Touched)) (index : RevisionIndex)
    → contains a (index_all position entries index).names
      ≡ (is_named a entries || contains a index.names)
unfolding index_all index_entry
index_all-names a position [] index = refl
index_all-names a position ((revision, found) ∷ entries) index =
    index_all-names a (suc position) entries (index_entry position revision found index)
    ∙ (ap (λ b. is_named a entries || b) (contains-add_all a found.names index.names)
        ∙ or_swap (is_named a entries) (contains a found.names) (contains a index.names))

pub index_all-removed_meta :
    (k : Text) (position : ℕ) (entries : List (Text × Touched)) (index : RevisionIndex)
    → lookup k (index_all position entries index).removed_meta
      ≡ either (lookup k index.removed_meta) (first_removal k entries)
unfolding index_all index_entry
index_all-removed_meta k position [] index = sym (either-none (lookup k index.removed_meta))
index_all-removed_meta k position ((revision, found) ∷ entries) index =
    index_all-removed_meta k (suc position) entries (index_entry position revision found index)
    ∙ (ap (λ o. either o (first_removal k entries))
          (lookup-default_all k found.removed_meta index.removed_meta)
        ∙ either_assoc (lookup k index.removed_meta) (lookup k found.removed_meta)
            (first_removal k entries))

pub index_all-removed_meta-IsDict :
    (position : ℕ) (entries : List (Text × Touched)) (index : RevisionIndex)
    → IsDict index.removed_meta
    → IsDict (index_all position entries index).removed_meta
unfolding index_all index_entry
index_all-removed_meta-IsDict position [] index h = h
index_all-removed_meta-IsDict position ((revision, found) ∷ entries) index h =
    index_all-removed_meta-IsDict (suc position) entries (index_entry position revision found index)
      (default_all-IsDict found.removed_meta index.removed_meta h)

pub index_all-head :
    (position : ℕ) (entries : List (Text × Touched)) (index : RevisionIndex)
    → (index_all position entries index).head ≡ index.head
unfolding index_all index_entry
index_all-head position [] index = refl
index_all-head position ((revision, found) ∷ entries) index =
    index_all-head (suc position) entries (index_entry position revision found index)
