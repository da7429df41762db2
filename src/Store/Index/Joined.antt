-- ===== src/Store/Index/Joined.antt =====
-- What two walks, one behind the other, hold; and what the steps of carrying an index forward do.
use mathlib.Core.List.{append_assoc}
use ha_dashboard_history.Base.{
  ℕ, suc, ◌+◌, ◌≡◌, refl, ap, sym, ◌∙◌, Bool, true, false, ◌||◌, List, [], ◌∷◌, ◌++◌, map, Option,
  none, some, Text, contains, lookup, length, list_eq, nat_eq, arith,
}
use ha_dashboard_history.Git.{Entry}
use ha_dashboard_history.Store.Dict.{set_item, get_or}
use ha_dashboard_history.Store.Dict.Laws.{
  either, either_assoc, either-none, if_same, IsDict, lookup-cons_same, lookup-cons_other,
  lookup-set_item_self, lookup-set_item_other, get_or-of_lookup, get_or-set_item_self, get_or-none,
}
use ha_dashboard_history.Store.Touched.{Touched}
use ha_dashboard_history.Store.Index.{read_entry, slide, put_in_front, overridden}
use ha_dashboard_history.Store.Index.Walked.{
  revisions_of, place_in, is_named, first_removal, one_if,
}

get_or-cons_same :
    (k j : Text) (revs : List Text) (m : List (Text × List Text))
    → k ≡ j
    → get_or [] k ((j, revs) ∷ m) ≡ revs
unfolding get_or
get_or-cons_same k j revs m e = rw (lookup-cons_same k j revs m e, get_or) refl

pub get_or-put_in_front :
    (k : Text) (arrived m : List (Text × List Text))
    → IsDict arrived
    → get_or [] k (put_in_front arrived m) ≡ get_or [] k arrived ++ get_or [] k m
unfolding put_in_front
get_or-put_in_front k [] m h =
    let e : get_or [] k [] ≡ [] = unfold get_or lookup in refl in
    ap (λ l. l ++ get_or [] k m) (sym e)
get_or-put_in_front k ((j, revs) ∷ arrived) m (once, h) =
    let m' = set_item j (revs ++ get_or [] j m) m in
    get_or-put_in_front k arrived m' h
    ∙ if_same k j _
        (λ e.
          let none_left : get_or [] k arrived ≡ [] =
            get_or-none [] k arrived (ap (λ a. lookup a arrived) e ∙ once) in
          let written : get_or [] k m' ≡ revs ++ get_or [] k m =
            ap (λ a. get_or [] k (set_item a (revs ++ get_or [] a m) m)) (sym e)
            ∙ get_or-set_item_self [] k (revs ++ get_or [] k m) m in
          ap (λ l. l ++ get_or [] k m') none_left
          ∙ (written ∙ ap (λ l. l ++ get_or [] k m) (sym (get_or-cons_same k j revs arrived e))))
        (λ d.
          ap (λ l. get_or [] k arrived ++ l)
            (get_or-of_lookup [] k m' m (lookup-set_item_other k j (revs ++ get_or [] j m) m d))
          ∙ ap (λ l. l ++ get_or [] k m)
              (get_or-of_lookup [] k arrived ((j, revs) ∷ arrived)
                (sym (lookup-cons_other k j revs arrived d))))

pub lookup-overridden :
    (k : Text) (cached newer : List (Text × Text))
    → IsDict newer
    → lookup k (overridden cached newer) ≡ either (lookup k newer) (lookup k cached)
unfolding overridden lookup
lookup-overridden k cached [] h = refl
lookup-overridden k cached ((j, blob) ∷ newer) (once, h) =
    lookup-overridden k (set_item j blob cached) newer h
    ∙ if_same k j _
        (λ e.
          let none_left : lookup k newer ≡ none = ap (λ a. lookup a newer) e ∙ once in
          let written : lookup k (set_item j blob cached) ≡ some blob =
            ap (λ a. lookup k (set_item a blob cached)) (sym e)
            ∙ lookup-set_item_self k blob cached in
          ap (λ o. either o (lookup k (set_item j blob cached))) none_left
          ∙ (written
              ∙ ap (λ o. either o (lookup k cached)) (sym (lookup-cons_same k j blob newer e))))
        (λ d.
          ap (either (lookup k newer)) (lookup-set_item_other k j blob cached d)
          ∙ ap (λ o. either o (lookup k cached)) (sym (lookup-cons_other k j blob newer d)))

abbrev pub plus : ℕ → Option ℕ → Option ℕ
plus n none = none
plus n (some p) = some (p + n)

pub plus-either : (n : ℕ) (a b : Option ℕ) → plus n (either a b) ≡ either (plus n a) (plus n b)
plus-either n none b = refl
plus-either n (some a) b = refl

pub lookup-slide :
    (r : Text) (n : ℕ) (order : List (Text × ℕ))
    → lookup r (slide n order) ≡ plus n (lookup r order)
unfolding slide lookup
lookup-slide r n [] = refl
lookup-slide r n ((revision, position) ∷ order) =
    if_same r revision _
      (λ e.
        lookup-cons_same r revision (position + n) (slide n order) e
        ∙ ap (plus n) (sym (lookup-cons_same r revision position order e)))
      (λ d.
        lookup-cons_other r revision (position + n) (slide n order) d
        ∙ (lookup-slide r n order
            ∙ ap (plus n) (sym (lookup-cons_other r revision position order d))))

pub place_in-slide :
    (r : Text) (p q n : ℕ) (entries : List (Text × Touched))
    → q ≡ p + n
    → place_in r q entries ≡ plus n (place_in r p entries)
unfolding slide
place_in-slide r p q n [] e = refl
place_in-slide r p q n ((revision, found) ∷ entries) e =
    let here : lookup r ((revision, q) ∷ []) ≡ plus n (lookup r ((revision, p) ∷ [])) =
      ap (λ x. lookup r ((revision, x) ∷ [])) e ∙ lookup-slide r n ((revision, p) ∷ []) in
    ap (λ o. either o (lookup r ((revision, q) ∷ [])))
      (place_in-slide r (suc p) (suc q) n entries (omega arith))
    ∙ (ap (either (plus n (place_in r (suc p) entries))) here
        ∙ sym (plus-either n (place_in r (suc p) entries) (lookup r ((revision, p) ∷ []))))

pub place_in-append :
    (r : Text) (p q : ℕ) (xs ys : List (Text × Touched))
    → q ≡ p + length xs
    → place_in r p (xs ++ ys) ≡ either (place_in r q ys) (place_in r p xs)
place_in-append r p q [] ys e =
    let same : p ≡ q = omega arith in
    ap (λ x. place_in r x ys) same ∙ sym (either-none (place_in r q ys))
place_in-append r p q ((revision, found) ∷ xs) ys e =
    ap (λ o. either o (lookup r ((revision, p) ∷ [])))
      (place_in-append r (suc p) q xs ys (omega arith))
    ∙ either_assoc (place_in r q ys) (place_in r (suc p) xs) (lookup r ((revision, p) ∷ []))

pub revisions_of-append :
    (k : Text) (xs ys : List (Text × Touched))
    → revisions_of k (xs ++ ys) ≡ revisions_of k xs ++ revisions_of k ys
revisions_of-append k [] ys = refl
revisions_of-append k ((revision, found) ∷ xs) ys =
    ap (λ l. one_if (contains k found.keys) revision ++ l) (revisions_of-append k xs ys)
    ∙ sym (
        append_assoc (one_if (contains k found.keys) revision) (revisions_of k xs)
          (revisions_of k ys))

or_assoc : (a b c : Bool) → (a || (b || c)) ≡ ((a || b) || c)
or_assoc true b c = refl
or_assoc false b c = refl

pub is_named-append :
    (a : Text) (xs ys : List (Text × Touched))
    → is_named a (xs ++ ys) ≡ (is_named a xs || is_named a ys)
is_named-append a [] ys = refl
is_named-append a ((revision, found) ∷ xs) ys =
    ap (λ b. contains a found.names || b) (is_named-append a xs ys)
    ∙ or_assoc (contains a found.names) (is_named a xs) (is_named a ys)

pub first_removal-append :
    (k : Text) (xs ys : List (Text × Touched))
    → first_removal k (xs ++ ys) ≡ either (first_removal k xs) (first_removal k ys)
first_removal-append k [] ys = refl
first_removal-append k ((revision, found) ∷ xs) ys =
    ap (either (lookup k found.removed_meta)) (first_removal-append k xs ys)
    ∙ sym (either_assoc (lookup k found.removed_meta) (first_removal k xs) (first_removal k ys))

pub read_entry-append :
    (xs ys : List Entry) → map read_entry (xs ++ ys) ≡ map read_entry xs ++ map read_entry ys
read_entry-append [] ys = refl
read_entry-append (x ∷ xs) ys = ap (λ l. read_entry x ∷ l) (read_entry-append xs ys)
